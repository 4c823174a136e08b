-- ===== src/Shell/Header.antt =====
-- The header of every page, frontend/src/components/Header/Header.tsx, and the frame of the settings,
-- frontend/src/pages/Settings/Settings.tsx: what they show and where their buttons lead.
use lokinode.Common.{
  Bool, Option, String, Text, false, if◌then◌else◌, is_empty, none, not, some, str_eq, ◌&&◌, ◌||◌,
}
use lokinode.Version.{Num, is_newer_version}

-- what both read of /api/info
pub record Versions : Type 0 where
  pub latest_version : Option Text
  pub version : Option Text
  pub node_running : Bool

-- the dropdown of the languages
pub record Dropdown : Type 0 where
  pub is_open : Bool
  pub lang : Text

unfoldable pub toggle : Dropdown → Dropdown
toggle d = record d { is_open = not d.is_open }

unfoldable pub click_outside : Dropdown → Dropdown
click_outside d = record d { is_open = false }

unfoldable pub pick : Text → Dropdown → Dropdown
pick lang d = record { is_open = false; lang = lang }

-- where the logo leads
abbrev pub home_target : Versions → String
home_target v = if v.node_running then "/node" else "/"

abbrev pub shows_settings : String → Versions → Bool
shows_settings pathname v = str_eq pathname "/settings" || v.node_running

abbrev pub shows_window_buttons : String → Bool
shows_window_buttons platform = str_eq platform "windows"

pub data Tab : Type 0 where
  network security logs about : Tab

-- the tab that a link may ask for
abbrev pub initial_tab : Option Tab → Tab
initial_tab none = network
initial_tab (some tab) = tab

abbrev pub is_given : Option Text → Bool
is_given none = false
is_given (some v) = not (is_empty v)

module _ (number : Text → Num) where
  unfoldable pub header_needs_update : Versions → Bool
  unfolding is_newer_version
  header_needs_update v = is_newer_version number v.latest_version v.version

  unfoldable pub help_target : Versions → String
  unfolding header_needs_update
  help_target v =
      if header_needs_update v
      then "https://docs.flokicoin.org/wallets/lokinode/"
      else "https://docs.flokicoin.org/wallets/lokinode"

  unfoldable pub is_latest : Versions → Bool
  unfolding header_needs_update
  is_latest v = is_given v.latest_version && is_given v.version && not (header_needs_update v)
