-- ===== src/Node/Frames.antt =====
-- What the effects leave alone, and what a whole commit does to the flags that the error screen reads.
use lokinode.Common.{
  Bool, List, [], arith, false, if◌then◌else◌, is_some, suc, true, ℕ, ◌&&◌, ◌∷◌, ◌≡◌,
}
use lokinode.Node.Page.{Page, Call, post_restart}
use lokinode.Node.Effects.{
  clear_waiting, watch_boot, note_block, seed_last_block, end_locking, watch_lock, auto_unlock,
  leave_when_stopped, follow_restart, time_restart, close_sheet, clear_password,
}
use lokinode.Node.Commit.{
  clean_up, commit, event_changed, boot_changed, middle_effects, last_effects, run_if,
}

-- how many restarts a list of calls asks for
unfoldable pub restarts : List Call → ℕ
restarts [] = 0
restarts (post_restart ∷ cs) = suc (restarts cs)
restarts (_ ∷ cs) = restarts cs

-- `q` has the data, the waiting flags and the stall watch of `p`, and asks for no more restarts
pub record Keeps (p q : Page) : Type 0 where
  pub same_event : q.event ≡ p.event
  pub same_event_no : q.event_no ≡ p.event_no
  pub same_info : q.info ≡ p.info
  pub same_retrying : q.is_retrying ≡ p.is_retrying
  pub same_recovering : q.is_recovering ≡ p.is_recovering
  pub same_in_flight : q.restart_in_flight ≡ p.restart_in_flight
  pub same_stopped : q.session.user_stopped ≡ p.session.user_stopped
  pub same_since : q.boot_stalled_since ≡ p.boot_stalled_since
  pub same_stalled : q.restart_stalled ≡ p.restart_stalled
  pub same_timer : q.stall_timer ≡ p.stall_timer
  pub same_restarts : restarts q.out ≡ restarts p.out

abbrev KeepsAlways : (Page → Page) → Type 0
KeepsAlways f = (p : Page) → Keeps p (f p)

Keeps-trans : (p q o : Page) → Keeps p q → Keeps q o → Keeps p o
Keeps-trans p q o h k = ground arith

Keeps-refl : (p : Page) → Keeps p p
Keeps-refl p = ground arith

-- one more effect behind others
Keeps-run_if :
    (b : Bool) (f : Page → Page) (p q : Page) → KeepsAlways f → Keeps p q → Keeps p (run_if b f q)
unfolding run_if
Keeps-run_if true f p q h k = Keeps-trans p q (f q) k (h q)
Keeps-run_if false f p q h k = k

module _ (now : ℕ) (r : Page) where
  note_block-Keeps : KeepsAlways (note_block now r)
  unfolding note_block
  note_block-Keeps p = ground arith

  seed_last_block-Keeps : KeepsAlways (seed_last_block r)
  unfolding seed_last_block
  seed_last_block-Keeps p = ground arith

  end_locking-Keeps : KeepsAlways (end_locking r)
  unfolding end_locking
  end_locking-Keeps p = ground arith

  watch_lock-Keeps : KeepsAlways (watch_lock now r)
  unfolding watch_lock
  watch_lock-Keeps p = ground arith

  auto_unlock-Keeps : KeepsAlways (auto_unlock r)
  unfolding auto_unlock
  auto_unlock-Keeps p = ground arith

  leave_when_stopped-Keeps : KeepsAlways (leave_when_stopped r)
  unfolding leave_when_stopped restarts
  leave_when_stopped-Keeps p = ground arith

  follow_restart-Keeps : KeepsAlways (follow_restart r)
  unfolding follow_restart
  follow_restart-Keeps p = ground arith

  time_restart-Keeps : KeepsAlways (time_restart now r)
  unfolding time_restart
  time_restart-Keeps p = ground arith

  close_sheet-Keeps : KeepsAlways (close_sheet r)
  unfolding close_sheet
  close_sheet-Keeps p = ground arith

  clear_password-Keeps : KeepsAlways (clear_password r)
  unfolding clear_password
  clear_password-Keeps p = ground arith

module _ (now : ℕ) (a r : Page) where
  pub middle_effects-Keeps : (p : Page) → Keeps p (middle_effects now a r p)
  unfolding middle_effects
  middle_effects-Keeps p = Keeps-run_if _ _ p _ (time_restart-Keeps now r) (
      Keeps-run_if _ _ p _ (follow_restart-Keeps now r) (
        Keeps-run_if _ _ p _ (leave_when_stopped-Keeps now r) (
          Keeps-run_if _ _ p _ (auto_unlock-Keeps now r) (
            Keeps-run_if _ _ p _ (watch_lock-Keeps now r) (
              Keeps-run_if _ _ p _ (end_locking-Keeps now r) (
                Keeps-run_if _ _ p _ (seed_last_block-Keeps now r)
                  (Keeps-run_if _ _ p _ (note_block-Keeps now r) (Keeps-refl p))))))))

  pub last_effects-Keeps : (p : Page) → Keeps p (last_effects a r p)
  unfolding last_effects
  last_effects-Keeps p =
      Keeps-run_if _ _ p _ (clear_password-Keeps now r)
        (Keeps-run_if _ _ p _ (close_sheet-Keeps now r) (Keeps-refl p))

-- the waiting flags after a commit: an event ends the waiting
abbrev pub waits : Page → Page → Bool → Bool
waits a r flag = if event_changed a r && is_some r.event then false else flag

-- what a commit makes of the data and the waiting flags
pub record Committed (a r q : Page) : Type 0 where
  pub same_event : q.event ≡ r.event
  pub same_event_no : q.event_no ≡ r.event_no
  pub same_info : q.info ≡ r.info
  pub retrying : q.is_retrying ≡ waits a r r.is_retrying
  pub recovering : q.is_recovering ≡ waits a r r.is_recovering
  pub same_in_flight : q.restart_in_flight ≡ r.restart_in_flight
  pub same_stopped : q.session.user_stopped ≡ r.session.user_stopped
  pub same_restarts : restarts q.out ≡ restarts r.out

-- what the effect of the stall watch, or its absence, makes of its refs
abbrev pub watched : ℕ → Page → Page → Page → Page
watched now a r p = run_if (boot_changed a r) (watch_boot now r) p

-- the first two stages of a commit
abbrev pub begun : Page → Page → Page
begun a r = run_if (event_changed a r) (clear_waiting r) (clean_up a r r)

begun-Committed : (a r : Page) → Committed a r (begun a r)
unfolding run_if clear_waiting clean_up
begun-Committed a r = ground arith

watched-Committed : (now : ℕ) (a r p : Page) → Committed a r p → Committed a r (watched now a r p)
unfolding run_if watch_boot
watched-Committed now a r p h = ground arith

Committed-Keeps : (a r p q : Page) → Committed a r p → Keeps p q → Committed a r q
Committed-Keeps a r p q h k = ground arith

pub commit-Committed : (now : ℕ) (a r : Page) → Committed a r (commit now a r)
unfolding commit
commit-Committed now a r =
    let p = begun a r in
    let q = middle_effects now a r p in
    let o = watched now a r q in
    Committed-Keeps a r o (last_effects a r o)
      (watched-Committed now a r q
        (Committed-Keeps a r p q (begun-Committed a r) (middle_effects-Keeps now a r p)))
      (last_effects-Keeps now a r o)
