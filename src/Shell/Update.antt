-- ===== src/Shell/Update.antt =====
-- The notice of a new release, frontend/src/views/main/UpdateAlert.tsx. `Number` of the JavaScript
-- runtime is a parameter, as in frontend/src/lib/version.ts. Times are in milliseconds.
use lokinode.Common.{
  Bool, Option, Text, digits, false, if◌then◌else◌, is_empty, ltb, none, not, some, true, ℕ, ◌&&◌,
  ◌+◌,
}
use lokinode.Version.{Num, nan, num, infinity, is_newer_version}

-- the data of /api/info, the state of the component, and the entry of the local storage
pub record Update : Type 0 where
  pub latest_version : Option Text
  pub version : Option Text
  pub dismissed : Bool
  pub reminder_time : Option Text

unfoldable pub dismiss : ℕ → Update → Update
unfolding digits
dismiss now u = record u { reminder_time = some (digits now); dismissed = true }

-- `onOpenChange`
unfoldable pub open_changed : ℕ → Bool → Update → Update
unfolding dismiss
open_changed now open? u = if not open? then dismiss now u else u

-- a new start of the program, where the local storage stays
unfoldable pub restarted : Update → Update
restarted u = record u { dismissed = false }

-- `Date.now() - t < 2 * 60 * 60 * 1000`
abbrev pub is_recent : ℕ → Num → Bool
is_recent now nan = false
is_recent now (num t) = ltb now (t + 7200000)
is_recent now infinity = true

module _ (number : Text → Num) where
  unfoldable pub is_snoozed : ℕ → Option Text → Bool
  is_snoozed now none = false
  is_snoozed now (some t) = not (is_empty t) && is_recent now (number t)

  unfoldable pub needs_update : Update → Bool
  unfolding is_newer_version
  needs_update u = not u.dismissed && is_newer_version number u.latest_version u.version

  unfoldable pub is_shown : ℕ → Update → Bool
  unfolding is_snoozed needs_update
  is_shown now u = if is_snoozed now u.reminder_time then false else needs_update u
