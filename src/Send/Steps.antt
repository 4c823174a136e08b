-- ===== src/Send/Steps.antt =====
-- The view over time: what the user does and what the backend answers. A button acts on the screen that
-- it stands on only.
use lokinode.Common.{Bool, Option, String, false, if◌then◌else◌, not, true, ℕ, ℤ, ◌&&◌}
use lokinode.Daemon.{BalanceResponse}
use lokinode.Fetcher.{Outcome}
use lokinode.Send.{
  Page, FeePreset, FeesResponse, FundPsbtResponse, Screen, done_screen, review_screen, input_screen,
  screen, handle_release, click_review, review_done, handle_send, finalize_done, publish_done,
  reset, max_clicked, max_done, fees_came,
}

pub data Input : Type 0 where
  review_clicked back_clicked send_clicked reset_clicked max_pressed : Input
  address_typed amount_typed : String → Input
  preset_picked : FeePreset → Input
  fees_answered : Outcome FeesResponse → Input
  balance_came : Option BalanceResponse → Input
  fund_answered : Outcome FundPsbtResponse → Input
  finalize_answered publish_answered : Outcome String → Input
  max_answered : Outcome ℕ → Input

abbrev pub on_screen : Screen → Screen → Bool
on_screen done_screen done_screen = true
on_screen review_screen review_screen = true
on_screen input_screen input_screen = true
on_screen _ _ = false

module _ (loki_of : String → Option ℤ) (decimal_of : ℕ → String) where
  unfoldable pub handle : Input → Page → Page
  handle review_clicked p = if on_screen input_screen (screen p) then click_review loki_of p else p
  handle back_clicked p = if on_screen review_screen (screen p) then handle_release p else p
  handle send_clicked p =
      if on_screen review_screen (screen p) && not p.sending then handle_send p else p
  handle reset_clicked p = if on_screen done_screen (screen p) then reset p else p
  handle max_pressed p =
      if on_screen input_screen (screen p) && not p.is_calculating_max then max_clicked p else p
  handle (address_typed v) p = record p { address = v }
  handle (amount_typed v) p = record p { amount = v }
  handle (preset_picked v) p = record p { fee_preset = v }
  handle (fees_answered o) p = fees_came o p
  handle (balance_came b) p = record p { balance = b }
  handle (fund_answered o) p = if p.is_reviewing then review_done o p else p
  handle (finalize_answered o) p = finalize_done o p
  handle (publish_answered o) p = publish_done o p
  handle (max_answered o) p = max_done decimal_of o p
