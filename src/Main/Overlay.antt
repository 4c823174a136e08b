-- ===== src/Main/Overlay.antt =====
-- The overlay that stays while a node stops, on the main page of frontend/src/pages/Main/Main.tsx.
use lokinode.Common.{
  Bool, Bool-cases, arith, false, inl, inr, some, true, ℕ, ◌+◌, ◌||◌, ◌∙◌, ◌≡◌, ◌≤◌, ◌⊎◌,
}
use lokinode.Main.Page.{MainPage}
use lokinode.Main.Effects.{
  event_changed, stopping_changed, clean_up, dismiss_overlay, leave_when_running, watch_start,
  set_safety, check_node_dir, commit, is_stopping, mount, run_if,
}
use lokinode.Main.Steps.{Input, Mounted, Reach, Step, handle, here, input, next, render, safety_due}

-- what a page shows while a node stops is not more than `p` shows, and its timer is that of `p`
Calmer : MainPage → MainPage → Type 0
Calmer p q = is_stopping q ≡ true → (is_stopping p ≡ true) × (q.safety_timer ≡ p.safety_timer)

handle-Calmer : (now : ℕ) (i : Input) (p : MainPage) → Calmer p (handle now i p)
unfolding handle Calmer
handle-Calmer now i p h = ground arith

Calmer-trans : (p q o : MainPage) → Calmer p q → Calmer q o → Calmer p o
unfolding Calmer
Calmer-trans p q o h k s = let (b, t) = k s in let (c, u) = h b in (c, t ∙ u)

Calmer-run_if :
    (b : Bool) (f : MainPage → MainPage) (p q : MainPage)
    → ((o : MainPage) → Calmer o (f o))
    → Calmer p q
    → Calmer p (run_if b f q)
unfolding run_if
Calmer-run_if true f p q h k = Calmer-trans p q (f q) k (h q)
Calmer-run_if false f p q h k = k

module _ (now : ℕ) (r : MainPage) where
  check_node_dir-Calmer : (p : MainPage) → Calmer p (check_node_dir r p)
  unfolding check_node_dir Calmer
  check_node_dir-Calmer p h = ground arith

  leave_when_running-Calmer : (p : MainPage) → Calmer p (leave_when_running r p)
  unfolding leave_when_running Calmer
  leave_when_running-Calmer p h = ground arith

  watch_start-Calmer : (p : MainPage) → Calmer p (watch_start now r p)
  unfolding watch_start Calmer
  watch_start-Calmer p h = ground arith

  -- a stop that the last render showed as well: its effects keep the timer or end the overlay
  watched-Calmer :
      (a : MainPage)
      → (is_stopping r ≡ true → is_stopping a ≡ true)
      → Calmer r (
          run_if (stopping_changed a r) (set_safety now r) (
            run_if
              (stopping_changed a r || event_changed a r)
              (dismiss_overlay r)
              (clean_up a r r)))
  unfolding run_if set_safety dismiss_overlay clean_up Calmer
  watched-Calmer a h k = ground arith

  commit-Calmer :
      (a : MainPage) → (is_stopping r ≡ true → is_stopping a ≡ true) → Calmer r (commit now a r)
  unfolding commit
  commit-Calmer a h = Calmer-run_if _ _ _ _ watch_start-Calmer (
      Calmer-run_if _ _ _ _ leave_when_running-Calmer
        (Calmer-run_if _ _ _ _ check_node_dir-Calmer (watched-Calmer a h)))

mount-Calmer :
    (now : ℕ) (r : MainPage)
    → is_stopping (mount now r) ≡ true
    → (is_stopping r ≡ true) × ((mount now r).safety_timer ≡ some (now + 10000))
unfolding mount
mount-Calmer now r h = ground arith

-- what the overlay waits for: the timer that was set at the time `start`
pub IsWaiting : ℕ → Mounted → Type 0
IsWaiting start m =
    is_stopping m.page ≡ true
    → (is_stopping m.rendered ≡ true) × (m.page.safety_timer ≡ some (start + 10000))

Step-IsWaiting :
    (start now : ℕ) (m n : Mounted) → Step now m n → IsWaiting start m → IsWaiting start n
unfolding IsWaiting Calmer
Step-IsWaiting start now m n (input i) w h =
    let (before, same) = handle-Calmer now i m.page h in
    let (shown, timer) = w before in (shown, same ∙ timer)
Step-IsWaiting start now m n render w h =
    let (before, same) = commit-Calmer now m.page m.rendered (λ k. (w k).0) h in
    let (shown, timer) = w before in (before, same ∙ timer)

abbrev pub mounted : ℕ → MainPage → Mounted
mounted now r = record { rendered = r; page = mount now r }

Reach-IsWaiting :
    (start : ℕ) (r : MainPage) (now : ℕ) (m : Mounted)
    → Reach (mounted start r) now m
    → IsWaiting start m
unfolding IsWaiting
Reach-IsWaiting start r now m (here _) h = mount-Calmer start r h
Reach-IsWaiting start r now m (next {n = n} later le reach step) h =
    Step-IsWaiting start now n m step (Reach-IsWaiting start r _ n reach) h

fired :
    (start later : ℕ) (p : MainPage)
    → start + 10000 ≤ later
    → p.session.user_stopped ≡ true
    → (is_stopping p ≡ true → p.safety_timer ≡ some (start + 10000))
    → (handle later safety_due p).transition.is_active ≡ false
unfolding handle
fired start later p le s h = elim (Bool-cases p.transition.is_active) [
  | inl a ↦ rw (h (ground (arith, a, s))) (ground arith)
  | inr n ↦ ground (arith, n)
]

waits-unless :
    (start : ℕ) (p : MainPage)
    → p.session.user_stopped ≡ true
    → (is_stopping p ≡ true → p.safety_timer ≡ some (start + 10000))
    → (p.transition.is_active ≡ false) ⊎ (p.safety_timer ≡ some (start + 10000))
waits-unless start p s h = elim (Bool-cases p.transition.is_active) [
  | inl a ↦ inr (h (ground (arith, a, s)))
  | inr n ↦ inl n
]

-- On a main page that was mounted at the time `start`, whatever has happened there, if the stop stands then
-- the overlay is not shown or its timer is due 10 seconds after the page was mounted; and the
-- overlay is not shown when that timer has fired, whether or not the daemon ever reported that it is down.
pub stopping_overlay_ends :
    (start now later : ℕ) (r : MainPage) (m : Mounted)
    → Reach (mounted start r) now m
    → m.page.session.user_stopped ≡ true
    → start + 10000 ≤ later
    → ((m.page.transition.is_active ≡ false) ⊎ (m.page.safety_timer ≡ some (start + 10000)))
      × ((handle later safety_due m.page).transition.is_active ≡ false)
unfolding IsWaiting
stopping_overlay_ends start now later r m reach s le =
    let w = Reach-IsWaiting start r now m reach in
    (waits-unless start m.page s (λ h. (w h).1), fired start later m.page le s (λ h. (w h).1))
