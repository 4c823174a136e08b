-- ===== src/LogStream/Follow.antt =====
-- Following the end of the list in frontend/src/components/LogStream/LogStream.tsx. Heights are in pixels;
-- the list keeps `scroll_top + client_height` below `scroll_height`.
use lokinode.Common.{Bool, if◌then◌else◌, ltb, not, true, ℕ, ◌&&◌, ◌+◌, ◌-◌}

pub record View : Type 0 where
  pub at_bottom : Bool
  pub scroll_top : ℕ
  pub scroll_height : ℕ
  pub client_height : ℕ

-- the effect on the entries, which made the list `height` high; the browser stops at the end
unfoldable pub entries_shown : ℕ → View → View
entries_shown height v = record v {
  scroll_height = height;
  scroll_top = if v.at_bottom then height - v.client_height else v.scroll_top;
}

unfoldable pub handle_scroll : ℕ → View → View
handle_scroll top v = record v {
  scroll_top = top;
  at_bottom = ltb v.scroll_height (top + v.client_height + 40);
}

unfoldable pub scroll_to_bottom : View → View
scroll_to_bottom v = record v { scroll_top = v.scroll_height - v.client_height; at_bottom = true }

abbrev pub show_fab : ℕ → View → Bool
show_fab entries v = not v.at_bottom && ltb 0 entries
