-- ===== src/Main/Renaming.antt =====
-- A change of the name that the backend refuses, on the main page of frontend/src/pages/Main/Main.tsx.
use lokinode.Common.{arith, eq_iff, false, some, trim_string, true, ℕ, ◌∷◌, ◌≡◌, ◌≢◌}
use lokinode.Fetcher.{Failure, err, failure_text}
use lokinode.Main.Page.{MainPage, patch_identity}
use lokinode.Main.Alias.{alias_saved, handle_save_alias, is_alias_dirty, shows_save}

-- the page whose new name was sent and refused
pub refused : ℕ → ℕ → Failure → MainPage → MainPage
refused now later e p = alias_saved later (err e) (handle_save_alias now p)

-- A new name without outer spaces, that the user saves for a node with a directory and that the backend
-- refuses, is sent once and the failure is shown; but it is in the store all the same, the
-- button to save it is gone, and to save it once more leaves the field and sends nothing.
pub refused_name_is_not_sent_again :
    (now later again : ℕ) (e : Failure) (p : MainPage)
    → is_alias_dirty p ≡ true
    → p.alias_loading ≡ false
    → p.alias_success ≡ false
    → p.config.node_dir ≢ ""
    → p.temp_alias ≢ ""
    → trim_string p.temp_alias ≡ p.temp_alias
    → let q = refused now later e p in
      (q.out ≡ patch_identity p.config.node_dir p.temp_alias ∷ p.out)
      × (q.alias_error ≡ some (failure_text e))
      × (q.config.alias_name ≡ p.temp_alias)
      × (shows_save q ≡ false)
      × ((handle_save_alias again q).out ≡ q.out)
      × ((handle_save_alias again q).is_editing_alias ≡ false)
unfolding refused handle_save_alias alias_saved
refused_name_is_not_sent_again now later again e p d l s n t k =
    ground
      (arith, eq_iff p.config.node_dir "", eq_iff p.temp_alias "", eq_iff p.temp_alias p.temp_alias)
