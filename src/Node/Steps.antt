-- ===== src/Node/Steps.antt =====
-- The page over time: what the user does, the outcomes of the requests, the events of the backend, the
-- timers, and the renders with their effects.
use lokinode.Common.{Bool, Option, String, false, if◌then◌else◌, leb, none, some, suc, ℕ, ◌≤◌}
use lokinode.Daemon.{StateEvent, InfoResponse}
use lokinode.Fetcher.{Outcome}
use lokinode.Node.Page.{Page}
use lokinode.Node.Handlers.{
  handle_unlock, unlock_done, handle_esc, handle_stop, stop_done, handle_lock, lock_done,
  go_home_done, restart_done, recover_done, arm_or_stop, main_button, type_password,
  toggle_show_password, press_enter, click_outside, pointer_down, pointer_move, pointer_up,
  pointer_cancel, open_logs, close_logs,
}
use lokinode.Node.Effects.{stop_arm_fires, lock_fires, restart_fires, stall_fires}
use lokinode.Node.Commit.{commit}

pub data Input : Type 0 where
  -- the user
  main_clicked power_clicked unlock_clicked enter_pressed escape_pressed : Input
  stop_confirmed lock_confirmed outside_clicked eye_clicked logs_opened logs_closed : Input
  password_typed : String → Input
  pressed_at moved_to released_at : ℕ → Input
  drag_cancelled : Input
  -- the backend
  event_came : Option StateEvent → Input
  info_came : Option InfoResponse → Input
  unlock_answered stop_answered lock_answered home_answered : Outcome (Unit {0}) → Input
  restart_answered recover_answered : Outcome (Unit {0}) → Input
  -- the timers
  stop_arm_due lock_due restart_due stall_due : Input

abbrev pub is_due : ℕ → Option ℕ → Bool
is_due now none = false
is_due now (some t) = leb t now

unfoldable pub handle : ℕ → Input → Page → Page
unfolding handle_unlock unlock_done handle_esc handle_stop stop_done handle_lock lock_done
    go_home_done restart_done recover_done arm_or_stop type_password toggle_show_password
    press_enter click_outside pointer_down pointer_move pointer_up pointer_cancel open_logs
    close_logs stop_arm_fires lock_fires restart_fires stall_fires
handle now main_clicked p = main_button p
handle now power_clicked p = arm_or_stop now p
handle now unlock_clicked p = handle_unlock p
handle now enter_pressed p = press_enter p
handle now escape_pressed p = handle_esc p
handle now stop_confirmed p = handle_stop p
handle now lock_confirmed p = handle_lock p
handle now outside_clicked p = click_outside p
handle now eye_clicked p = toggle_show_password p
handle now logs_opened p = open_logs p
handle now logs_closed p = close_logs p
handle now (password_typed v) p = type_password v p
handle now (pressed_at y) p = pointer_down y p
handle now (moved_to y) p = pointer_move y p
handle now (released_at y) p = pointer_up y p
handle now drag_cancelled p = pointer_cancel p
handle now (event_came e) p = record p { event = e; event_no = suc p.event_no }
handle now (info_came i) p = record p { info = i; info_no = suc p.info_no }
handle now (unlock_answered o) p = unlock_done o p
handle now (stop_answered o) p = stop_done o p
handle now (lock_answered o) p = lock_done o p
handle now (home_answered o) p = go_home_done o p
handle now (restart_answered o) p = restart_done o p
handle now (recover_answered o) p = recover_done o p
handle now stop_arm_due p = if is_due now p.stop_arm_timer then stop_arm_fires p else p
handle now lock_due p = if is_due now p.lock_timer then lock_fires p else p
handle now restart_due p = if is_due now p.restart_timer then restart_fires p else p
handle now stall_due p = if is_due now p.stall_timer then stall_fires p else p

-- the page, and its last render
pub record Mounted : Type 0 where
  pub rendered : Page
  pub page : Page

-- One step at the time `now`. Inputs may come between a change and the render that shows it.
pub data Step (now : ℕ) (m : Mounted) : Mounted → Type 0 where
  input : (i : Input) → Step now m (record m { page = handle now i m.page })
  render : Step now m (record { rendered = m.page; page = commit now m.rendered m.page })

-- the steps so far, at times that do not fall
pub data Reach (m : Mounted) : ℕ → Mounted → Type 0 where
  here : (now : ℕ) → Reach m now m
  next :
      {now : ℕ} {n o : Mounted} (later : ℕ)
      → now ≤ later
      → Reach m now n
      → Step later n o
      → Reach m later o
