-- ===== src/Wallet/Password.antt =====
-- The change of the wallet's password, frontend/src/views/settings/Security.tsx. Messages are kept by
-- their translation keys; `out` lists the calls that leave the view, last first. An overlay that is
-- to end has its `some` due time in milliseconds.
use lokinode.Common.{
  Bool, List, Option, String, Text, [], false, if◌then◌else◌, is_empty, is_some, length, ltb, none,
  not, some, str_eq, text_eq, true, ℕ, ◌&&◌, ◌+◌, ◌∷◌,
}
use lokinode.Fetcher.{Outcome, failure_message, failure_text, ok, err}
use lokinode.Session.{Transition, end_transition, start_transition}

pub data Call : Type 0 where
  patch_password : (current_password new_password : Text) → Call
  navigate_node mutate_info : Call
  toast_shown : (title description : String) → Call

pub record Security : Type 0 where
  pub current_pwd : Text
  pub new_pwd : Text
  pub confirm_pwd : Text
  pub changing : Bool
  pub current_error : Option String
  pub new_error : Option String
  pub confirm_error : Option String
  pub transition : Transition
  pub settle_timer : Option ℕ
  pub end_timer : Option ℕ
  pub out : List Call

abbrev pub call : Call → Security → Security
call c p = record p { out = c ∷ p.out }

-- ── `validate`
abbrev pub current_message : Security → Option String
current_message p = if is_empty p.current_pwd then some "validation.required" else none

abbrev pub new_message : Security → Option String
new_message p =
    if is_empty p.new_pwd
    then some "validation.required"
    else if ltb (length p.new_pwd) 8
    then some "validation.min8"
    else none

unfoldable pub confirm_message : Security → Option String
unfolding text_eq
confirm_message p =
    if not (is_empty p.new_pwd) && not (text_eq p.new_pwd p.confirm_pwd)
    then some "validation.no_match"
    else none

unfoldable pub validate : Security → Security × Bool
unfolding confirm_message
validate p = (
  record p {
    current_error = current_message p;
    new_error = new_message p;
    confirm_error = confirm_message p;
  },
  not (is_some (current_message p))
      && not (is_some (new_message p))
      && not (is_some (confirm_message p)),
)

-- ── `handleChangePassword`, up to its request
unfoldable pub handle_change_password : Security → Security
unfolding validate
handle_change_password p =
    let (q, valid) = validate p in
    if not valid
    then q
    else call (patch_password p.current_pwd p.new_pwd) (record q {
      changing = true;
      transition = start_transition "security.updating" (some "security.update_sub");
    })

-- the button, which is disabled while a change is under way
unfoldable pub click_update : Security → Security
unfolding handle_change_password
click_update p = if p.changing then p else handle_change_password p

-- its `finally`
unfoldable pub finish : ℕ → Security → Security
finish now p = record p { changing = false; end_timer = some (now + 500) }

-- `err.message || String(err)`
abbrev pub message_or_text : String → String → String
message_or_text message text = if str_eq message "" then text else message

unfoldable pub password_changed : ℕ → Outcome (Unit {0}) → Security → Security
unfolding finish
password_changed now (ok _) p = call (toast_shown "security.updated" "") (
    call navigate_node (record p {
      current_pwd = [];
      new_pwd = [];
      confirm_pwd = [];
      current_error = none;
      new_error = none;
      confirm_error = none;
      settle_timer = some (now + 2000);
    }))
password_changed now (err e) p =
    finish now (
      call (toast_shown "security.failed" (message_or_text (failure_message e) (failure_text e))) p)

-- the pause of two seconds is over; `mutateInfo` is awaited
unfoldable pub settle_fires : Security → Security
settle_fires p = call mutate_info (record p { settle_timer = none })

unfoldable pub info_settled : ℕ → Security → Security
unfolding finish
info_settled now p = finish now p

unfoldable pub end_fires : Security → Security
end_fires p = record p { transition = end_transition; end_timer = none }

-- ── The fields
unfoldable pub type_current : Text → Security → Security
type_current v p = record p { current_pwd = v; current_error = none }

unfoldable pub type_new : Text → Security → Security
type_new v p = record p { new_pwd = v; new_error = none }

unfoldable pub type_confirm : Text → Security → Security
type_confirm v p = record p { confirm_pwd = v; confirm_error = none }
