-- ===== src/Node/Commit.antt =====
-- Which effects of the page run after a render, in the order of the source, and the clean-ups before them.
use lokinode.Common.{Bool, false, if◌then◌else◌, none, not, str_eq, true, ℕ, ◌==◌, ◌||◌}
use lokinode.Daemon.{tag}
use lokinode.Node.Page.{Page}
use lokinode.Node.Derived.{state, node_running, is_active, is_locked}
use lokinode.Node.Effects.{
  clear_waiting, note_block, info_timestamp, seed_last_block, end_locking, watch_lock, auto_unlock,
  leave_when_stopped, follow_restart, time_restart, watch_boot, close_sheet, clear_password,
}

-- ── Which effects run
abbrev pub differs : Bool → Bool → Bool
differs true b = not b
differs false b = b

abbrev pub state_changed : Page → Page → Bool
state_changed a b = not (str_eq (tag (state a)) (tag (state b)))

abbrev pub event_changed : Page → Page → Bool
event_changed a b = not (a.event_no == b.event_no)

abbrev pub info_changed : Page → Page → Bool
info_changed a b = not (a.info_no == b.info_no)

abbrev pub running_changed : Page → Page → Bool
running_changed a b = differs (node_running a) (node_running b)

abbrev pub locking_changed : Page → Page → Bool
locking_changed a b = differs a.is_locking b.is_locking

abbrev pub locked_changed : Page → Page → Bool
locked_changed a b = differs (is_locked a) (is_locked b)

abbrev pub restarting_changed : Page → Page → Bool
restarting_changed a b = differs a.session.is_restarting b.session.is_restarting

abbrev pub stopping_changed : Page → Page → Bool
stopping_changed a b = differs a.is_stopping b.is_stopping

abbrev pub sheet_changed : Page → Page → Bool
sheet_changed a b = differs a.show_unlock b.show_unlock

unfoldable pub boot_changed : Page → Page → Bool
boot_changed a b =
    state_changed a b
    || running_changed a b
    || restarting_changed a b
    || differs a.session.user_stopped b.session.user_stopped
    || stopping_changed a b
    || locking_changed a b
    || differs a.restart_stalled b.restart_stalled

unfoldable pub run_if : Bool → (Page → Page) → Page → Page
run_if b f p = if b then f p else p

unfoldable pub clean_up : Page → Page → Page → Page
unfolding boot_changed
clean_up a r p = record p {
  lock_timer = if locking_changed a r then none else p.lock_timer;
  restart_timer = if restarting_changed a r then none else p.restart_timer;
  stall_timer = if boot_changed a r then none else p.stall_timer;
}

-- the effects between the one that ends the waiting and the stall watch
unfoldable pub middle_effects : ℕ → Page → Page → Page → Page
middle_effects now a r p₁ =
    let p₂ = run_if (event_changed a r) (note_block now r) p₁ in
    let p₃ = run_if (not (info_timestamp a.info == info_timestamp r.info)) (seed_last_block r) p₂ in
    let p₄ =
      run_if (locking_changed a r || locked_changed a r || running_changed a r) (end_locking r)
        p₃ in
    let p₅ = run_if (locking_changed a r) (watch_lock now r) p₄ in
    let p₆ =
      run_if
        (differs a.session.auto_unlock_pending r.session.auto_unlock_pending
          || restarting_changed a r
          || locked_changed a r
          || running_changed a r
          || differs a.session.wallet_unlocked r.session.wallet_unlocked)
        (auto_unlock r) p₅ in
    let p₇ =
      run_if
        (running_changed a r
          || event_changed a r
          || info_changed a r
          || locking_changed a r
          || restarting_changed a r
          || stopping_changed a r)
        (leave_when_stopped r) p₆ in
    let p₈ =
      run_if
        (running_changed a r
          || event_changed a r
          || restarting_changed a r
          || locked_changed a r
          || differs (is_active a) (is_active r)
          || state_changed a r)
        (follow_restart r) p₇ in
    run_if (restarting_changed a r) (time_restart now r) p₈

-- the effects behind the stall watch
unfoldable pub last_effects : Page → Page → Page → Page
last_effects a r p =
    let q =
      run_if (locked_changed a r || locking_changed a r || sheet_changed a r) (close_sheet r) p in
    run_if (sheet_changed a r) (clear_password r) q

-- The effects after the render `r`, whose forerunner was the render `a`, in the order of the source.
unfoldable pub commit : ℕ → Page → Page → Page
unfolding clean_up middle_effects last_effects run_if
commit now a r =
    let p = run_if (event_changed a r) (clear_waiting r) (clean_up a r r) in
    let q = middle_effects now a r p in
    last_effects a r (run_if (boot_changed a r) (watch_boot now r) q)
