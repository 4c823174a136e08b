-- ===== src/Main/Alias.antt =====
-- The name of the node on the main page: `handleEditAlias`, `handleSaveAlias` and the field of
-- frontend/src/pages/Main/Main.tsx.
use lokinode.Common.{
  Bool, String, false, if◌then◌else◌, is_some, none, not, some, str_eq, trim_string, true, ℕ, ◌&&◌,
  ◌+◌, ◌||◌,
}
use lokinode.Fetcher.{Outcome, failure_text, ok, err}
use lokinode.Session.{set_alias_name}
use lokinode.Main.Page.{MainPage, call, patch_identity}
use lokinode.Main.Start.{or_text}

abbrev pub display_alias : MainPage → String
display_alias p = or_text p.config.alias_name p.default_alias

abbrev pub is_alias_dirty : MainPage → Bool
is_alias_dirty p = not (str_eq p.temp_alias (display_alias p))

unfoldable pub handle_edit_alias : MainPage → MainPage
handle_edit_alias p = record p { temp_alias = display_alias p; is_editing_alias = true }

unfoldable pub type_alias : String → MainPage → MainPage
type_alias v p = record p { temp_alias = v; alias_error = none }

-- `handleSaveAlias` after its request, and where there is none
unfoldable pub alias_saved : ℕ → Outcome (Unit {0}) → MainPage → MainPage
alias_saved now (ok _) p = record p {
  alias_loading = false;
  alias_success = true;
  alias_timer = some (now + 2000);
}
alias_saved now (err e) p = record p { alias_error = some (failure_text e); alias_loading = false }

unfoldable pub handle_save_alias : ℕ → MainPage → MainPage
unfolding alias_saved trim_string
handle_save_alias now p =
    let trimmed = trim_string p.temp_alias in
    let sending : MainPage = record p {
      alias_loading = true;
      alias_error = none;
      alias_success = false;
      config = set_alias_name trimmed p.config;
    } in
    if not (is_alias_dirty p) || p.alias_loading || p.alias_success
    then record p { is_editing_alias = false }
    else if str_eq p.config.node_dir ""
    then alias_saved now (ok tt) sending
    else call (patch_identity p.config.node_dir trimmed) sending

unfoldable pub alias_fires : MainPage → MainPage
alias_fires p = record p { alias_success = false; is_editing_alias = false; alias_timer = none }

-- the field loses the focus
unfoldable pub blur_alias : ℕ → MainPage → MainPage
unfolding handle_save_alias
blur_alias now p =
    if not p.alias_loading && not (is_some p.alias_error) then handle_save_alias now p else p

-- the button beside the field is there
abbrev pub shows_save : MainPage → Bool
shows_save p = is_alias_dirty p || p.alias_loading || p.alias_success
