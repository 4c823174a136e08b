-- ===== src/Node/Watch.antt =====
-- What a commit does to the watch on the boot, in frontend/src/pages/Node/Node.tsx.
use lokinode.Common.{
  ap, arith, false, if◌then◌else◌, leb, refl, some, true, ℕ, ◌+◌, ◌-◌, ◌==◌, ◌∙◌, ◌≡◌,
}
use lokinode.Node.Page.{Page}
use lokinode.Node.Effects.{clear_waiting, watch_boot, in_boot_limbo, restart_stalled_timeout_ms}
use lokinode.Node.Commit.{clean_up, middle_effects, run_if, boot_changed, commit}
use lokinode.Node.Frames.{middle_effects-Keeps, last_effects-Keeps, begun, watched}

-- the refs of the watch after a commit that finds the boot in limbo
pub record Watching (now : ℕ) (r q : Page) : Type 0 where
  pub since :
      q.boot_stalled_since ≡ (if r.boot_stalled_since == 0 then now else r.boot_stalled_since)
  pub stalled : q.restart_stalled ≡ (
      if leb restart_stalled_timeout_ms (now - q.boot_stalled_since)
      then true
      else r.restart_stalled)
  pub timer :
      leb restart_stalled_timeout_ms (now - q.boot_stalled_since) ≡ false
      → q.stall_timer ≡ some (now + (restart_stalled_timeout_ms - (now - q.boot_stalled_since)))

begun_since :
    (a r : Page)
    → ((begun a r).boot_stalled_since ≡ r.boot_stalled_since)
      × ((begun a r).restart_stalled ≡ r.restart_stalled)
unfolding run_if clear_waiting clean_up
begun_since a r = ground arith

watched-Watching :
    (now : ℕ) (a r p : Page)
    → boot_changed a r ≡ true
    → in_boot_limbo r ≡ true
    → p.boot_stalled_since ≡ r.boot_stalled_since
    → p.restart_stalled ≡ r.restart_stalled
    → Watching now r (watched now a r p)
unfolding run_if watch_boot
watched-Watching now a r p c l s t = ground arith

-- from the time that the boot is in limbo the commit watches it
pub commit-Watching :
    (now : ℕ) (a r : Page)
    → boot_changed a r ≡ true
    → in_boot_limbo r ≡ true
    → Watching now r (commit now a r)
unfolding commit
commit-Watching now a r c l =
    let p = begun a r in
    let q = middle_effects now a r p in
    let o = watched now a r q in
    let k = middle_effects-Keeps now a r p in
    let w =
      watched-Watching now a r q c l (k.same_since ∙ (begun_since a r).0)
        (k.same_stalled ∙ (begun_since a r).1) in
    let j = last_effects-Keeps now a r o in
    record {
      since = j.same_since ∙ w.since;
      stalled = rw (j.same_stalled, j.same_since) w.stalled;
      timer = λ e. rw (j.same_timer, j.same_since) (w.timer (rw j.same_since at e));
    }

begun-Unwatched :
    (a r : Page)
    → boot_changed a r ≡ false
    → let q = begun a r in
      (q.boot_stalled_since ≡ r.boot_stalled_since)
      × (q.restart_stalled ≡ r.restart_stalled)
      × (q.stall_timer ≡ r.stall_timer)
unfolding run_if clear_waiting clean_up
begun-Unwatched a r c = ground arith

unwatched : (now : ℕ) (a r p : Page) → boot_changed a r ≡ false → watched now a r p ≡ p
unfolding run_if
unwatched now a r p c = rw c refl

-- a commit that runs no watch leaves what it has set
pub commit-Unwatched :
    (now : ℕ) (a r : Page)
    → boot_changed a r ≡ false
    → let q = commit now a r in
      (q.boot_stalled_since ≡ r.boot_stalled_since)
      × (q.restart_stalled ≡ r.restart_stalled)
      × (q.stall_timer ≡ r.stall_timer)
unfolding commit
commit-Unwatched now a r c =
    let p = begun a r in
    let q = middle_effects now a r p in
    let k = middle_effects-Keeps now a r p in
    let w = unwatched now a r q c in
    let j = last_effects-Keeps now a r (watched now a r q) in
    let b = begun-Unwatched a r c in
    (
      j.same_since ∙ ap (λ z. z.boot_stalled_since) w ∙ k.same_since ∙ b.0,
      j.same_stalled ∙ ap (λ z. z.restart_stalled) w ∙ k.same_stalled ∙ b.1,
      j.same_timer ∙ ap (λ z. z.stall_timer) w ∙ k.same_timer ∙ b.2,
    )
