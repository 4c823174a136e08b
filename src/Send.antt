-- ===== src/Send.antt =====
-- frontend/src/views/node/Send.tsx: funding, reviewing and sending a transaction. `Math.round(parseFloat(
-- amount) * 1e8)` is the parameter `loki_of`, whose `none` is NaN, and `(n / 1e8).toString()` the
-- parameter `decimal_of`. The fee rates are the whole numbers that the backend sends, so the rough fee
-- of 140 vB is exact. `out` lists the calls that leave the page, last first.
pub mod Steps
pub mod Locks
pub mod Amounts
mod Tests
use lokinode.Common.{
  Bool, List, Option, String, [], false, if◌then◌else◌, is_le_zero, is_some, leb, ltb, negsuc, none,
  not, or_else, pos, some, str_eq, true, ℕ, ℤ, ◌&&◌, ◌*◌, ◌-◌, ◌==◌, ◌||◌, ◌∷◌,
}
use lokinode.Daemon.{BalanceResponse}
use lokinode.Fetcher.{failure_message, Failure, failure_text, Outcome, ok, err}

pub data FeePreset : Type 0 where
  economy standard fast : FeePreset

pub record FeesResponse : Type 0 where
  pub fastest_fee : ℕ
  pub half_hour_fee : ℕ
  pub economy_fee : ℕ

pub record OutputLock : Type 0 where
  pub id : String
  pub txid_bytes : String
  pub output_index : ℕ

pub record FundPsbtResponse : Type 0 where
  pub psbt : String
  pub total_fee : ℕ
  pub locks : List OutputLock

pub data Call : Type 0 where
  post_fund : String → ℤ → ℕ → Call
  post_finalize : String → Call
  post_publish : String → Call
  post_release : List OutputLock → Call
  post_max_sendable : String → ℕ → Call
  mutate_balance : Call
  toast_shown : String → String → Call

pub record Page : Type 0 where
  pub balance : Option BalanceResponse
  pub address : String
  pub amount : String
  pub fee_preset : FeePreset
  pub fees : Option FeesResponse
  pub psbt : Option String
  pub total_fee : Option ℕ
  pub locks : Option (List OutputLock)
  pub is_reviewing : Bool
  pub error : Option String
  pub sending : Bool
  pub done : Option String
  pub is_calculating_max : Bool
  pub out : List Call

abbrev pub initial : Page
initial = record {
  balance = none;
  address = "";
  amount = "";
  fee_preset = standard;
  fees = none;
  psbt = none;
  total_fee = none;
  locks = none;
  is_reviewing = false;
  error = none;
  sending = false;
  done = none;
  is_calculating_max = false;
  out = [];
}

abbrev pub call : Call → Page → Page
call c p = record p { out = c ∷ p.out }

-- a text that is not null and not empty
abbrev pub truthy : Option String → Bool
truthy none = false
truthy (some s) = not (str_eq s "")

-- `fee || default`
abbrev pub or_default : ℕ → ℕ → ℕ
or_default fee default = if fee == 0 then default else fee

abbrev pub default_rate : FeePreset → ℕ
default_rate fast = 10
default_rate standard = 5
default_rate economy = 1

abbrev pub preset_rate : FeesResponse → FeePreset → ℕ
preset_rate fees fast = or_default fees.fastest_fee (default_rate fast)
preset_rate fees standard = or_default fees.half_hour_fee (default_rate standard)
preset_rate fees economy = or_default fees.economy_fee (default_rate economy)

abbrev rate_of : Option FeesResponse → FeePreset → ℕ
rate_of none preset = default_rate preset
rate_of (some fees) preset = preset_rate fees preset

unfoldable pub loki_per_vbyte : Page → ℕ
loki_per_vbyte p = rate_of p.fees p.fee_preset

abbrev confirmed_of : Option BalanceResponse → ℕ
confirmed_of none = 0
confirmed_of (some b) = b.confirmed

abbrev pub balance_loki : Page → ℕ
balance_loki p = confirmed_of p.balance

-- `Math.round(roughFee * 1e8)`
abbrev pub rough_fee_loki : Page → ℕ
rough_fee_loki p = 140 * loki_per_vbyte p

-- `Math.max(0, balanceLoki - roughFeeLoki)` is the subtraction that stops at 0
unfoldable pub spendable_loki : Page → ℕ
unfolding loki_per_vbyte
spendable_loki p = balance_loki p - rough_fee_loki p

-- `x || 0` of the rounded amount
abbrev pub or_zero : Option ℤ → ℤ
or_zero none = pos 0
or_zero (some z) = z

-- `0 < amountLoki && amountLoki <= spendable`
abbrev pub in_budget : ℤ → ℕ → Bool
in_budget (pos n) spendable = ltb 0 n && leb n spendable
in_budget (negsuc n) spendable = false

-- `!loki || loki <= 0`
abbrev pub is_no_amount : Option ℤ → Bool
is_no_amount none = true
is_no_amount (some z) = is_le_zero z

abbrev has_locks : Option (List OutputLock) → Bool
has_locks none = false
has_locks (some []) = false
has_locks (some (l ∷ ls)) = true

unfoldable pub handle_release : Page → Page
handle_release p =
    let q = if has_locks p.locks then call (post_release (or_else p.locks [])) p else p in
    record q { psbt = none; total_fee = none; locks = none }

-- the clean-up when the component leaves
unfoldable pub unmount : Page → Page
unmount p =
    if truthy p.psbt && has_locks p.locks then call (post_release (or_else p.locks [])) p else p

-- the fees that the backend recommends, or the failure to get them
unfoldable pub fees_came : Outcome FeesResponse → Page → Page
fees_came (ok fees) p = record p { fees = some fees }
fees_came (err e) p = p

-- `err.message || String(err)`
abbrev pub message_of : Failure → String
message_of e = if str_eq (failure_message e) "" then failure_text e else failure_message e

unfoldable pub review_done : Outcome FundPsbtResponse → Page → Page
review_done (ok resp) p = record p {
  psbt = some resp.psbt;
  total_fee = some resp.total_fee;
  locks = some resp.locks;
  is_reviewing = false;
}
review_done (err e) p =
    call (toast_shown "send.errors.failed" (message_of e))
      (record p { error = some (message_of e); is_reviewing = false })

unfoldable pub handle_send : Page → Page
handle_send p =
    if truthy p.psbt
    then call (post_finalize (or_else p.psbt "")) (record p { sending = true })
    else p

unfoldable pub finalize_done : Outcome String → Page → Page
finalize_done (ok tx_hex) p = call (post_publish tx_hex) p
finalize_done (err e) p =
    call (toast_shown "send.errors.failed" (message_of e)) (record p { sending = false })

unfoldable pub publish_done : Outcome String → Page → Page
publish_done (ok tx_id) p = call mutate_balance (record p { done = some tx_id; sending = false })
publish_done (err e) p =
    call (toast_shown "send.errors.failed" (message_of e)) (record p { sending = false })

unfoldable pub reset : Page → Page
unfolding handle_release
reset p = record (handle_release p) { address = ""; amount = ""; done = none; error = none }

-- the button with the available amount
unfoldable pub max_clicked : Page → Page
unfolding loki_per_vbyte
max_clicked p =
    if str_eq p.address ""
    then call (toast_shown "common.info" "send.address_first") p
    else call (post_max_sendable p.address (loki_per_vbyte p))
        (record p { is_calculating_max = true })

pub data Screen : Type 0 where
  done_screen review_screen input_screen : Screen

-- which of the three screens is shown
unfoldable pub screen : Page → Screen
screen p =
    if truthy p.done
    then done_screen
    else if truthy p.psbt && is_some p.total_fee
    then review_screen
    else input_screen

module _ (loki_of : String → Option ℤ) where
  abbrev pub amount_loki : Page → ℤ
  amount_loki p = or_zero (loki_of p.amount)

  unfoldable pub can_review : Page → Bool
  unfolding spendable_loki
  can_review p = not (str_eq p.address "") && in_budget (amount_loki p) (spendable_loki p)

  unfoldable pub handle_review : Page → Page
  unfolding loki_per_vbyte
  handle_review p =
      if str_eq p.address "" || is_no_amount (loki_of p.amount)
      then p
      else call (post_fund p.address (amount_loki p) (loki_per_vbyte p))
          (record p { is_reviewing = true; error = none })

  -- the button, which stands on the input screen and is disabled by `!canReview || isReviewing`
  unfoldable pub click_review : Page → Page
  unfolding can_review handle_review
  click_review p = if not (can_review p) || p.is_reviewing then p else handle_review p

module _ (decimal_of : ℕ → String) where
  unfoldable pub max_done : Outcome ℕ → Page → Page
  max_done (ok amount) p = record p { amount = decimal_of amount; is_calculating_max = false }
  max_done (err e) p =
      call (toast_shown "send.errors.failed" (failure_message e))
        (record p { is_calculating_max = false })
