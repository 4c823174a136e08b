-- ===== src/Node/Handlers.antt =====
-- The handlers of the page. One that awaits a request is two functions: up to the `await`, which sends
-- the request, and from its outcome on.
use lokinode.Common.{
  String, false, if◌then◌else◌, leb, none, not, some, str_eq, true, ℕ, ◌&&◌, ◌+◌, ◌-◌, ◌||◌,
}
use lokinode.Fetcher.{has_status, failure_text, Outcome, ok, err}
use lokinode.Session.{
  set_wallet_unlocked, set_user_stopped, clear_session, start_transition, end_transition,
}
use lokinode.Node.Page.{
  Page, call, post_unlock, post_stop, post_lock, post_restart, post_recover, navigate_home,
  mutate_info, toast_shown,
}
use lokinode.Node.Derived.{
  state, is_active, is_locked, is_no_wallet, is_down, is_down_state, is_loading, neutrino_corrupted,
}

-- ── Unlock
unfoldable pub handle_unlock : Page → Page
handle_unlock p =
    if p.is_unlocking
    then p
    else if str_eq p.password ""
    then record p { pwd_error = true }
    else call (post_unlock p.password) (record p { pwd_error = false; is_unlocking = true })

unfoldable pub unlock_done : Outcome (Unit {0}) → Page → Page
unlock_done (ok _) p = call mutate_info (record p {
  session = set_wallet_unlocked true p.session;
  show_unlock = false;
  password = "";
  is_unlocking = false;
})
unlock_done (err e) p = record p { is_unlocking = false; pwd_error = true }

-- the listener of the Escape key
unfoldable pub handle_esc : Page → Page
handle_esc p = record p { show_unlock = false; password = ""; pwd_error = false }

-- ── Stop
unfoldable pub handle_stop : Page → Page
handle_stop p =
    if p.is_stopping || p.is_locking
    then p
    else call post_stop (record p {
      is_stopping = true;
      session = clear_session (set_user_stopped true p.session);
      transition = start_transition "node.stopping" (some "node.status.sub.stopping");
    })

unfoldable pub stop_done : Outcome (Unit {0}) → Page → Page
stop_done (ok _) p = call navigate_home p
stop_done (err e) p =
    call
      (if has_status 429 e
        then toast_shown "node.errors.rate_limited" none
        else toast_shown "node.errors.stop_failed" (some (failure_text e)))
      (record p {
        is_stopping = false;
        session = set_user_stopped false p.session;
        transition = end_transition;
      })

-- ── Lock
unfoldable pub handle_lock : Page → Page
handle_lock p =
    if not (is_active p) || p.is_locking || p.is_stopping
    then p
    else call post_lock (record p {
      is_locking = true;
      session = clear_session p.session;
      show_unlock = false;
      password = "";
      pwd_error = false;
    })

unfoldable pub lock_done : Outcome (Unit {0}) → Page → Page
lock_done (ok _) p = call mutate_info (record p { is_locking = false })
lock_done (err e) p =
    call
      (if has_status 429 e
        then toast_shown "node.errors.rate_limited" none
        else if has_status 503 e
        then toast_shown "node.errors.daemon_not_ready" none
        else toast_shown "main.errors.start_failed" none)
      (record p { is_locking = false })

-- ── Go home
unfoldable pub handle_go_home : Page → Page
handle_go_home p =
    call post_stop (record p { session = clear_session (set_user_stopped true p.session) })

unfoldable pub go_home_done : Outcome (Unit {0}) → Page → Page
go_home_done _ p = call navigate_home p

-- ── Restart
unfoldable pub handle_restart : Page → Page
handle_restart p =
    if (not (is_down_state (state p)) && not p.restart_stalled) || p.restart_in_flight
    then p
    else call post_restart (record p {
      restart_in_flight = true;
      is_retrying = true;
      boot_stalled_since = 0;
      restart_stalled = false;
    })

unfoldable pub restart_done : Outcome (Unit {0}) → Page → Page
restart_done (ok _) p = record p { restart_in_flight = false }
restart_done (err e) p =
    call
      (if has_status 429 e
        then toast_shown "node.errors.rate_limited" none
        else toast_shown "node.errors.restart_failed" (some (failure_text e)))
      (call mutate_info (record p { is_retrying = false; restart_in_flight = false }))

-- ── Recover
unfoldable pub handle_recover : Page → Page
handle_recover p =
    if not (is_down_state (state p)) || p.recovery_in_flight
    then p
    else call post_recover (record p { recovery_in_flight = true; is_recovering = true })

unfoldable pub recover_done : Outcome (Unit {0}) → Page → Page
recover_done (ok _) p = record p { recovery_in_flight = false }
recover_done (err e) p =
    call
      (if has_status 429 e
        then toast_shown "node.errors.rate_limited" none
        else toast_shown "node.errors.recover_failed" (some (failure_text e)))
      (call mutate_info (record p { is_recovering = false; recovery_in_flight = false }))

-- the link that arms on the first click and stops on the second
unfoldable pub arm_or_stop : ℕ → Page → Page
unfolding handle_stop
arm_or_stop now p =
    if p.stop_armed
    then handle_stop (record p { stop_armed = false; stop_arm_timer = none })
    else record p { stop_armed = true; stop_arm_timer = some (now + 3000) }

unfoldable pub main_button : Page → Page
unfolding handle_recover handle_restart handle_go_home
main_button p =
    if is_loading p
    then p
    else if is_locked p
    then record p { show_unlock = true }
    else if is_down p
    then if neutrino_corrupted p then handle_recover p else handle_restart p
    else if is_no_wallet p
    then handle_go_home p
    else p

-- ── The unlock sheet
unfoldable pub type_password : String → Page → Page
type_password v p = record p { password = v; pwd_error = false }

unfoldable pub toggle_show_password : Page → Page
toggle_show_password p = record p { show_password = not p.show_password }

unfoldable pub press_enter : Page → Page
unfolding handle_unlock
press_enter p = if p.is_unlocking then p else handle_unlock p

unfoldable pub click_outside : Page → Page
click_outside p = if p.is_unlocking then p else record p { show_unlock = false }

unfoldable pub pointer_down : ℕ → Page → Page
pointer_down y p =
    if p.is_unlocking then p else record p { is_dragging_sheet = true; sheet_drag_start = y }

-- `Math.max(0, y - start)` is the subtraction that stops at 0
unfoldable pub pointer_move : ℕ → Page → Page
pointer_move y p =
    if p.is_dragging_sheet then record p { sheet_drag = y - p.sheet_drag_start } else p

unfoldable pub pointer_up : ℕ → Page → Page
pointer_up y p =
    if p.is_dragging_sheet
    then record p {
      is_dragging_sheet = false;
      sheet_drag = 0;
      show_unlock = if leb 80 (y - p.sheet_drag_start) then false else p.show_unlock;
    }
    else p

unfoldable pub pointer_cancel : Page → Page
pointer_cancel p = record p { is_dragging_sheet = false; sheet_drag = 0 }

unfoldable pub open_logs : Page → Page
open_logs p = record p { show_logs = true }

unfoldable pub close_logs : Page → Page
close_logs p = record p { show_logs = false }
