-- ===== src/LogStream.antt =====
-- The live tail of frontend/src/components/LogStream/LogStream.tsx: the level of a line, the buffer of
-- lines, the connection with its retries, and following the end of the list.
pub mod Tail
pub mod Follow
mod Tests
use lokinode.Common.{
  Bool, List, Option, Text, [], codes, drop, false, if◌then◌else◌, includes, leb, length, none,
  some, suc, trim, true, ℕ, ◌++◌, ◌+◌, ◌-◌, ◌||◌, ◌∷◌,
}

pub data Level : Type 0 where
  level_err level_wrn level_inf level_dbg level_trc level_raw : Level

unfoldable pub detect_level : Text → Level
unfolding includes
detect_level line =
    if includes line (codes "[ERR]") || includes line (codes "[CRIT]")
    then level_err
    else if includes line (codes "[WRN]")
    then level_wrn
    else if includes line (codes "[INF]")
    then level_inf
    else if includes line (codes "[DBG]")
    then level_dbg
    else if includes line (codes "[TRC]")
    then level_trc
    else level_raw

pub record LogEntry : Type 0 where
  pub id : ℕ
  pub text : Text
  pub level : Level

pub data ConnStatus : Type 0 where
  connecting reconnecting live : ConnStatus

abbrev pub max_lines : ℕ
max_lines = 500

-- the component; `last_id` is the module's counter and `retry_timer` the time at which it is due
pub record LogStream : Type 0 where
  pub entries : List LogEntry
  pub last_id : ℕ
  pub conn_status : ConnStatus
  pub filename : Option Text
  pub is_open : Bool
  pub retry_timer : Option ℕ
  pub cancelled : Bool

-- the new value of the buffer
unfoldable pub push_entry : List LogEntry → LogEntry → List LogEntry
push_entry prev entry =
    if leb max_lines (length prev)
    then drop (length prev - max_lines + 1) prev ++ entry ∷ []
    else prev ++ entry ∷ []

-- `es.onmessage`, from the trimmed text on
unfoldable pub add_line : Text → LogStream → LogStream
unfolding push_entry detect_level
add_line [] s = s
add_line (c ∷ text) s = record s {
  last_id = suc s.last_id;
  entries =
      push_entry s.entries
        (record { id = suc s.last_id; text = c ∷ text; level = detect_level (c ∷ text) });
}

unfoldable pub on_message : Text → LogStream → LogStream
unfolding trim add_line
on_message line s = add_line (trim line) s

unfoldable pub on_open : LogStream → LogStream
on_open s = record s { conn_status = live }

unfoldable pub on_filename : Text → LogStream → LogStream
on_filename name s = record s { filename = some name }

-- the stream breaks at the time `now`
unfoldable pub on_error : ℕ → LogStream → LogStream
on_error now s = record s {
  is_open = false;
  conn_status = reconnecting;
  retry_timer = some (now + 3000);
}

-- the answers that `connect` waits for
unfoldable pub connect : LogStream → LogStream
connect s = if s.cancelled then s else record s { is_open = true; retry_timer = none }

-- the clean-up of the effect
unfoldable pub disconnect : LogStream → LogStream
disconnect s = record s { cancelled = true; is_open = false; retry_timer = none }

abbrev pub initial_log : LogStream
initial_log = record {
  entries = [];
  last_id = 0;
  conn_status = connecting;
  filename = none;
  is_open = false;
  retry_timer = none;
  cancelled = false;
}
