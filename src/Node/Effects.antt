-- ===== src/Node/Effects.antt =====
-- The effects of the page. An effect reads the values of the render that it belongs to, `r`, and writes
-- to the page `p`; refs and timers it reads from `p`. After a render an effect runs if a value of its
-- dependencies is not that of the render before, and the clean-ups of the old effects run first.
use lokinode.Common.{
  Bool, Option, false, if◌then◌else◌, is_some, leb, ltb, none, not, some, true, ℕ, ◌&&◌, ◌+◌, ◌-◌,
  ◌/◌, ◌==◌, ◌||◌,
}
use lokinode.Daemon.{DaemonState, StateEvent, InfoResponse, block, tx, starting, init, state_none}
use lokinode.Session.{set_auto_unlock_pending, set_is_restarting, clear_session}
use lokinode.Node.Page.{Page, call, navigate_home, toast_shown}
use lokinode.Node.Derived.{state, node_running, is_locked, is_live, is_locked_state, is_boot_state}

abbrev pub restart_stalled_timeout_ms : ℕ
restart_stalled_timeout_ms = 60000

unfoldable pub clear_waiting : Page → Page → Page
clear_waiting r p =
    if is_some r.event
    then record p {
      is_retrying = if r.is_retrying then false else p.is_retrying;
      is_recovering = if r.is_recovering then false else p.is_recovering;
    }
    else p

-- `e.bestHeaderTimestamp ? e.bestHeaderTimestamp : Math.floor(Date.now() / 1000)`
abbrev pub block_time : ℕ → Option ℕ → ℕ
block_time now none = now / 1000
block_time now (some t) = if t == 0 then now / 1000 else t

abbrev pub is_block_or_tx : DaemonState → Bool
is_block_or_tx block = true
is_block_or_tx tx = true
is_block_or_tx _ = false

abbrev block_at : ℕ → Option StateEvent → ℕ → ℕ
block_at now none t = t
block_at now (some e) t =
    if is_block_or_tx e.state then block_time now e.best_header_timestamp else t

unfoldable pub note_block : ℕ → Page → Page → Page
note_block now r p = record p { last_block_at = block_at now r.event p.last_block_at }

abbrev pub info_timestamp : Option InfoResponse → ℕ
info_timestamp none = 0
info_timestamp (some i) = i.best_header_timestamp

unfoldable pub seed_last_block : Page → Page → Page
seed_last_block r p =
    if ltb p.last_block_at (info_timestamp r.info)
    then record p { last_block_at = info_timestamp r.info }
    else p

unfoldable pub end_locking : Page → Page → Page
end_locking r p =
    if r.is_locking && is_locked r && node_running r then record p { is_locking = false } else p

unfoldable pub watch_lock : ℕ → Page → Page → Page
watch_lock now r p =
    if r.is_locking
    then record p { lock_timer = some (now + 60000) }
    else record p { lock_timer = none }

unfoldable pub auto_unlock : Page → Page → Page
auto_unlock r p =
    if r.session.auto_unlock_pending
      && not r.session.is_restarting
      && is_locked r
      && node_running r
      && not r.session.wallet_unlocked
    then record p { session = set_auto_unlock_pending false p.session; show_unlock = true }
    else p

unfoldable pub leave_when_stopped : Page → Page → Page
leave_when_stopped r p =
    if (is_some r.event || is_some r.info)
      && not (node_running r)
      && not r.is_locking
      && not r.session.is_restarting
      && not r.is_stopping
      && not p.navigating_away
    then call navigate_home (record p { navigating_away = true })
    else p

-- `state === 'starting' || state === 'init' || state === 'none'`
abbrev pub is_early : DaemonState → Bool
is_early starting = true
is_early init = true
is_early state_none = true
is_early _ = false

unfoldable pub node_settled : Page → Bool
node_settled r = node_running r && (is_locked_state (state r) || is_live (state r))

unfoldable pub forget_session : Page → Page → Page
forget_session r p =
    if not (node_running r) && is_some r.event && not r.is_locking
    then record p { session = clear_session p.session }
    else p

-- with `seen` the new value of `seenRestartProgressRef.current`
unfoldable pub note_progress : Page → Bool → Page → Page
unfolding node_settled
note_progress r seen p =
    if seen && node_settled r
    then record p {
      seen_restart_progress = seen;
      restart_timer = none;
      session = set_is_restarting false p.session;
    }
    else record p { seen_restart_progress = seen }

unfoldable pub watch_restart : Page → Page → Page
unfolding note_progress
watch_restart r p =
    if r.session.is_restarting
    then note_progress r (p.seen_restart_progress || (not (node_running r) || is_early (state r))) p
    else record p { seen_restart_progress = false; restart_timer = none }

-- the effect that follows the restart; its two parts stand in one body
unfoldable pub follow_restart : Page → Page → Page
unfolding forget_session watch_restart
follow_restart r p = watch_restart r (forget_session r p)

unfoldable pub time_restart : ℕ → Page → Page → Page
time_restart now r p =
    if r.session.is_restarting then record p { restart_timer = some (now + 60000) } else p

unfoldable pub in_boot_limbo : Page → Bool
in_boot_limbo r =
    node_running r
    && not r.session.is_restarting
    && not r.session.user_stopped
    && not r.is_stopping
    && not r.is_locking
    && is_boot_state (state r)

-- what the effect does once `bootStalledSinceRef.current` is `since`
unfoldable pub arm_stall : ℕ → ℕ → Page → Page
arm_stall now since p =
    if leb restart_stalled_timeout_ms (now - since)
    then record p { boot_stalled_since = since; restart_stalled = true }
    else record p {
      boot_stalled_since = since;
      stall_timer = some (now + (restart_stalled_timeout_ms - (now - since)));
    }

unfoldable pub watch_boot : ℕ → Page → Page → Page
unfolding in_boot_limbo arm_stall
watch_boot now r p =
    if in_boot_limbo r
    then arm_stall now (if p.boot_stalled_since == 0 then now else p.boot_stalled_since) p
    else record p {
      boot_stalled_since = 0;
      restart_stalled = if r.restart_stalled then false else p.restart_stalled;
    }

unfoldable pub close_sheet : Page → Page → Page
close_sheet r p =
    if not (is_locked r) && not r.is_locking && r.show_unlock
    then record p { show_unlock = false }
    else p

unfoldable pub clear_password : Page → Page → Page
clear_password r p = if r.show_unlock then p else record p { password = ""; pwd_error = false }

-- the callbacks of the timers
unfoldable pub stop_arm_fires : Page → Page
stop_arm_fires p = record p { stop_armed = false; stop_arm_timer = none }

unfoldable pub lock_fires : Page → Page
lock_fires p =
    call (toast_shown "node.errors.lock_timeout_title" (some "node.errors.lock_timeout_desc"))
      (record p { is_locking = false; lock_timer = none })

unfoldable pub restart_fires : Page → Page
restart_fires p = record p { session = set_is_restarting false p.session; restart_timer = none }

unfoldable pub stall_fires : Page → Page
stall_fires p = record p { restart_stalled = true; stall_timer = none }
