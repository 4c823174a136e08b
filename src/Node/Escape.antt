-- ===== src/Node/Escape.antt =====
-- What frontend/src/pages/Node/Node.tsx offers the user.
use lokinode.Common.{arith, false, if◌then◌else◌, is_some, true, ◌∷◌, ◌≡◌, ◌⊎◌}
use lokinode.Node.Page.{Page, post_restart, post_recover}
use lokinode.Node.Derived.{
  is_locked, state, is_down, is_down_state, is_loading, neutrino_corrupted, show_escape_hatch,
  screen, wallet_screen, button_screen,
}
use lokinode.Node.Handlers.{main_button, handle_go_home}

-- Once /api/info has answered, a page that is neither stopping, locking, restarting nor unlocking shows
-- the wallet, or it shows the main button, and then it offers the logs or the power switch, or the main
-- button shuts the node down.
pub never_stuck :
    (p : Page)
    → is_some p.info ≡ true
    → p.is_stopping ≡ false
    → p.is_locking ≡ false
    → p.session.is_restarting ≡ false
    → p.is_unlocking ≡ false
    → (screen p ≡ wallet_screen)
      ⊎ ((screen p ≡ button_screen)
          × ((show_escape_hatch p ≡ true) ⊎ (main_button p ≡ handle_go_home p)))
unfolding screen show_escape_hatch main_button is_down is_loading
never_stuck p i a b c d = ground arith

-- On the error screen of a daemon that is down, where the page is not loading and neither a restart nor a
-- recovery is in flight, the main button asks for a restart, or for a recovery if the headers are
-- corrupt.
pub error_screen_acts :
    (p : Page)
    → is_down p ≡ true
    → is_loading p ≡ false
    → is_down_state (state p) ≡ true
    → p.restart_in_flight ≡ false
    → p.recovery_in_flight ≡ false
    → (main_button p).out ≡ (if neutrino_corrupted p then post_recover else post_restart) ∷ p.out
unfolding main_button is_down is_loading
error_screen_acts p a b c d e = ground arith

-- The error screen of a stalled boot whose headers are flagged corrupt has no working button: while the
-- daemon's state is neither `down` nor `locked`, a click on it changes nothing.
pub stalled_and_corrupt_is_dead :
    (p : Page)
    → is_down p ≡ true
    → is_down_state (state p) ≡ false
    → is_locked p ≡ false
    → neutrino_corrupted p ≡ true
    → main_button p ≡ p
unfolding main_button is_down is_loading
stalled_and_corrupt_is_dead p a b c d = ground arith
