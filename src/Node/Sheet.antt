-- ===== src/Node/Sheet.antt =====
-- The unlock sheet that opens by itself on the page of frontend/src/pages/Node/Node.tsx.
use lokinode.Common.{Bool, arith, false, true, ℕ, ◌≡◌}
use lokinode.Node.Page.{Page}
use lokinode.Node.Derived.{is_locked, node_running}
use lokinode.Node.Effects.{
  auto_unlock, clear_password, close_sheet, follow_restart, leave_when_stopped, time_restart,
  watch_boot,
}
use lokinode.Node.Commit.{commit, last_effects, locked_changed, middle_effects, run_if}

-- the sheet is open, and will not open again by itself
unfoldable pub Open : Page → Type 0
Open p = (p.show_unlock ≡ true) × (p.session.auto_unlock_pending ≡ false)

KeepsOpen : (Page → Page) → Type 0
KeepsOpen f = (p : Page) → Open p → Open (f p)

Open-run_if : (b : Bool) (f : Page → Page) (p : Page) → KeepsOpen f → Open p → Open (run_if b f p)
unfolding run_if KeepsOpen
Open-run_if true f p k h = k p h
Open-run_if false f p k h = h

-- what the effect waits for
pub record Awaited (r : Page) : Type 0 where
  pub pending : r.session.auto_unlock_pending ≡ true
  pub not_restarting : r.session.is_restarting ≡ false
  pub still_locked : r.session.wallet_unlocked ≡ false
  pub is_wallet_locked : is_locked r ≡ true
  pub is_node_running : node_running r ≡ true

module _ (now : ℕ) (r : Page) (w : Awaited r) where
  auto_unlock-Open : (p : Page) → Open (auto_unlock r p)
  unfolding auto_unlock Open
  auto_unlock-Open p =
      ground
        (arith, w.pending, w.not_restarting, w.still_locked, w.is_wallet_locked, w.is_node_running)

  run-Open : (b : Bool) (p : Page) → b ≡ true → Open (run_if b (auto_unlock r) p)
  unfolding run_if
  run-Open b p e = rw e (auto_unlock-Open p)

  leave_when_stopped-Open : KeepsOpen (leave_when_stopped r)
  unfolding leave_when_stopped Open KeepsOpen
  leave_when_stopped-Open p h = ground arith

  follow_restart-Open : KeepsOpen (follow_restart r)
  unfolding follow_restart Open KeepsOpen
  follow_restart-Open p h = ground arith

  time_restart-Open : KeepsOpen (time_restart now r)
  unfolding time_restart Open KeepsOpen
  time_restart-Open p h = ground arith

  watch_boot-Open : KeepsOpen (watch_boot now r)
  unfolding watch_boot Open KeepsOpen
  watch_boot-Open p h = ground arith

  close_sheet-Open : KeepsOpen (close_sheet r)
  unfolding close_sheet Open KeepsOpen
  close_sheet-Open p h = ground (arith, w.is_wallet_locked)

  clear_password-Open : KeepsOpen (clear_password r)
  unfolding clear_password Open KeepsOpen
  clear_password-Open p h = ground arith

  module _ (a : Page) (c : locked_changed a r ≡ true) where
    middle_effects-Open : (p : Page) → Open (middle_effects now a r p)
    unfolding middle_effects
    middle_effects-Open p = Open-run_if _ _ _ time_restart-Open (
        Open-run_if _ _ _ follow_restart-Open
          (Open-run_if _ _ _ leave_when_stopped-Open (run-Open _ _ (ground (arith, c)))))

    -- the sheet opens in the commit that first shows the wallet locked
    pub commit-Open : Open (commit now a r)
    unfolding commit last_effects
    commit-Open = Open-run_if _ _ _ clear_password-Open (
        Open-run_if _ _ _ close_sheet-Open
          (Open-run_if _ _ _ watch_boot-Open (middle_effects-Open _)))
