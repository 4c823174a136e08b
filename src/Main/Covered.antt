-- ===== src/Main/Covered.antt =====
-- A start while the overlay of a stop is still shown, on the main page of
-- frontend/src/pages/Main/Main.tsx. The overlay covers the page from the pointer, not from the keyboard.
use lokinode.Common.{Bool, arith, false, none, true, ℕ, ◌≡◌}
use lokinode.Main.Page.{MainPage}
use lokinode.Main.Start.{click_power}
use lokinode.Main.Effects.{
  clean_up, dismiss_overlay, leave_when_running, watch_start, set_safety, check_node_dir, commit,
  is_stopping, run_if,
}
use lokinode.Main.Steps.{Input, Mounted, Reach, Step, handle, here, input, next, render}

-- the overlay is shown, and neither a stop nor a timer is there that would end it
record IsCovered (p : MainPage) : Type 0 where
  shown : p.transition.is_active ≡ true
  taken_back : p.session.user_stopped ≡ false
  no_timer : p.safety_timer ≡ none

abbrev StaysCovered : (MainPage → MainPage) → Type 0
StaysCovered f = (p : MainPage) → IsCovered p → IsCovered (f p)

handle-IsCovered : (now : ℕ) (i : Input) → StaysCovered (handle now i)
unfolding handle
handle-IsCovered now i p h = ground arith

run_if-IsCovered :
    (b : Bool) (f : MainPage → MainPage) (p : MainPage)
    → StaysCovered f
    → IsCovered p
    → IsCovered (run_if b f p)
unfolding run_if
run_if-IsCovered true f p s h = s p h
run_if-IsCovered false f p s h = h

module _ (now : ℕ) (r : MainPage) where
  check_node_dir-IsCovered : StaysCovered (check_node_dir r)
  unfolding check_node_dir
  check_node_dir-IsCovered p h = ground arith

  leave_when_running-IsCovered : StaysCovered (leave_when_running r)
  unfolding leave_when_running
  leave_when_running-IsCovered p h = ground arith

  watch_start-IsCovered : StaysCovered (watch_start now r)
  unfolding watch_start
  watch_start-IsCovered p h = ground arith

  dismiss_overlay-IsCovered : r.session.user_stopped ≡ false → StaysCovered (dismiss_overlay r)
  unfolding dismiss_overlay
  dismiss_overlay-IsCovered e p h = ground arith

  set_safety-IsCovered : r.session.user_stopped ≡ false → StaysCovered (set_safety now r)
  unfolding set_safety
  set_safety-IsCovered e p h = ground arith

  -- a commit whose clean-ups leave the overlay alone and no timer
  commit-IsCovered :
      (a : MainPage)
      → r.session.user_stopped ≡ false
      → IsCovered (clean_up a r r)
      → IsCovered (commit now a r)
  unfolding commit
  commit-IsCovered a e h = run_if-IsCovered _ _ _ watch_start-IsCovered (
      run_if-IsCovered _ _ _ leave_when_running-IsCovered (
        run_if-IsCovered _ _ _ check_node_dir-IsCovered (
          run_if-IsCovered _ _ _ (set_safety-IsCovered e)
            (run_if-IsCovered _ _ _ (dismiss_overlay-IsCovered e) h))))

clean_up-IsCovered : (a r : MainPage) → IsCovered r → IsCovered (clean_up a r r)
unfolding clean_up
clean_up-IsCovered a r h = ground arith

Step-IsCovered : (now : ℕ) (m n : Mounted) → Step now m n → IsCovered m.page → IsCovered n.page
Step-IsCovered now m n (input i) h = handle-IsCovered now i m.page h
Step-IsCovered now m n render h =
    commit-IsCovered now m.page m.rendered h.taken_back (clean_up-IsCovered m.rendered m.page h)

Reach-IsCovered :
    (m : Mounted) (now : ℕ) (n : Mounted) → IsCovered m.page → Reach m now n → IsCovered n.page
Reach-IsCovered m now _ h (here _) = h
Reach-IsCovered m now o h (next {n = n} later le reach step) =
    Step-IsCovered now n o step (Reach-IsCovered m _ n h reach)

-- the clean-ups of the render that shows the start
started-IsCovered :
    (p : MainPage)
    → is_stopping p ≡ true
    → p.auto_starting ≡ false
    → ((click_power p).session.user_stopped ≡ false)
      × IsCovered (clean_up p (click_power p) (click_power p))
unfolding click_power clean_up
started-IsCovered p s a = ground arith

-- the page at the render that shows a click on the power button of the page `p`
abbrev pub started_at : ℕ → MainPage → Mounted
started_at now p = record { rendered = click_power p; page = commit now p (click_power p) }

-- If the power button is pressed while the overlay of a stop is shown and no start is under way, the overlay
-- stays: from the render that shows the start, whatever happens on the main page, what the daemon reports
-- and the timers included, the overlay is shown.
pub start_keeps_overlay :
    (start now : ℕ) (p : MainPage) (m : Mounted)
    → is_stopping p ≡ true
    → p.auto_starting ≡ false
    → Reach (started_at start p) now m
    → m.page.transition.is_active ≡ true
start_keeps_overlay start now p m s a r =
    let (e, h) = started-IsCovered p s a in
    (Reach-IsCovered (started_at start p) now m (commit-IsCovered start (click_power p) p e h)
      r).shown
