-- ===== src/Node/Page.antt =====
-- The state of the component `Node`, with the stores and the data that it reads. Times are in
-- milliseconds. A timer that is set and has not fired is its `some` due time. `out` lists the calls that
-- leave the page, last first.
use lokinode.Common.{Bool, List, Option, String, ℕ, ◌∷◌}
use lokinode.Daemon.{StateEvent, InfoResponse}
use lokinode.Session.{NodeSession, Transition}

-- the requests of the page; the texts of the toasts are their translation keys
pub data Call : Type 0 where
  post_unlock : String → Call
  post_stop post_lock post_restart post_recover : Call
  navigate_home : Call
  mutate_info : Call
  toast_shown : String → Option String → Call

pub record Page : Type 0 where
  pub session : NodeSession
  pub transition : Transition
  pub event : Option StateEvent
  pub event_no : ℕ
  pub info : Option InfoResponse
  pub info_no : ℕ
  pub password : String
  pub show_unlock : Bool
  pub is_unlocking : Bool
  pub pwd_error : Bool
  pub is_stopping : Bool
  pub is_locking : Bool
  pub is_retrying : Bool
  pub is_recovering : Bool
  pub restart_stalled : Bool
  pub boot_stalled_since : ℕ
  pub stop_armed : Bool
  pub stop_arm_timer : Option ℕ
  pub lock_timer : Option ℕ
  pub restart_timer : Option ℕ
  pub stall_timer : Option ℕ
  pub navigating_away : Bool
  pub seen_restart_progress : Bool
  pub restart_in_flight : Bool
  pub recovery_in_flight : Bool
  pub last_block_at : ℕ
  pub show_password : Bool
  pub show_logs : Bool
  pub sheet_drag : ℕ
  pub sheet_drag_start : ℕ
  pub is_dragging_sheet : Bool
  pub out : List Call

-- a call that leaves the page
abbrev pub call : Call → Page → Page
call c p = record p { out = c ∷ p.out }
