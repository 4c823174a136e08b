-- ===== src/Main/Stopped.antt =====
-- A stop from the page of the node, frontend/src/pages/Node/Node.tsx, up to the main page that it goes to,
-- frontend/src/pages/Main/Main.tsx: the two share the session and the overlay.
use lokinode.Common.{arith, false, some, true, ℕ, ◌+◌, ◌∷◌, ◌≡◌, ◌≤◌, ◌⊎◌}
use lokinode.Fetcher.{ok}
use lokinode.Node.Page.{Page, navigate_home, post_stop}
use lokinode.Node.Handlers.{handle_stop, stop_done}
use lokinode.Main.Page.{MainPage}
use lokinode.Main.Steps.{Mounted, Reach, handle, safety_due}
use lokinode.Main.Overlay.{mounted, stopping_overlay_ends}

-- the page of the node whose stop succeeds
unfoldable pub stopped : Page → Page
unfolding handle_stop stop_done
stopped p = stop_done (ok tt) (handle_stop p)

stopped-stopping :
    (p : Page)
    → p.is_stopping ≡ false
    → p.is_locking ≡ false
    → ((stopped p).out ≡ navigate_home ∷ post_stop ∷ p.out)
      × ((stopped p).session.user_stopped ≡ true)
      × ((stopped p).transition.is_active ≡ true)
unfolding stopped handle_stop stop_done
stopped-stopping p a b = ground arith

-- A stop on the page of a node that is neither stopping nor locking, and that the backend accepts, sends the
-- one request and goes home. The main page that is mounted then, at the time `start`, with the same session
-- and overlay, shows the overlay at first. Whatever happens there, as long as the overlay is shown and the
-- stop stands, that is no start has taken it back, the timer stands 10 seconds after; when it has fired on a
-- page where the stop stands, the overlay is not shown, though the daemon may never report that it is down.
pub stopped_node_is_left :
    (p : Page) (start now later : ℕ) (r : MainPage) (m : Mounted)
    → p.is_stopping ≡ false
    → p.is_locking ≡ false
    → r.session ≡ (stopped p).session
    → r.transition ≡ (stopped p).transition
    → Reach (mounted start r) now m
    → m.page.session.user_stopped ≡ true
    → start + 10000 ≤ later
    → ((stopped p).out ≡ navigate_home ∷ post_stop ∷ p.out)
      × (r.transition.is_active ≡ true)
      × ((m.page.transition.is_active ≡ false) ⊎ (m.page.safety_timer ≡ some (start + 10000)))
      × ((handle later safety_due m.page).transition.is_active ≡ false)
stopped_node_is_left p start now later r m a b s t reach stands le =
    let (sent, user, active) = stopped-stopping p a b in
    let (timer, gone) = stopping_overlay_ends start now later r m reach stands le in
    (sent, ground (arith, t, active), timer, gone)
