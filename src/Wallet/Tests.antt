-- ===== src/Wallet/Tests.antt =====
-- Payments, addresses and passwords, and the theorems about them at those.
use lokinode.Fetcher.{ok}
use lokinode.Common.{
  List, Option, String, [], arith, codes, digits, digits_from, false, if◌then◌else◌, is_some,
  length, map, none, pos, refl, some, str_eq, true, ℕ, ◌||◌, ◌∷◌, ◌≡◌, ◌≤◌, ◌⊎◌,
}
use lokinode.Daemon.{TransactionItem}
use lokinode.Session.{end_transition}
use lokinode.Wallet.Amounts.{flc_text, strip, eight_decimals}
use lokinode.Wallet.Exact.{loki, loki-flc_text}
use lokinode.Wallet.Notices.{description, initial_watch, run}
use lokinode.Wallet.Payments.{changes, news, notices_are_news, payments}
use lokinode.Wallet.Receive.{AddrType, mounted, loaded, segwit, taproot}
use lokinode.Wallet.Shown.{
  Both, address_has_shown_type, asked, opened, picked, type_clicked, new_clicked,
}
use lokinode.Wallet.Password.{Security, click_update, patch_password}
use lokinode.Wallet.Change.{click_update-IsSent}

hundred_flc : flc_text eight_decimals 10000000000 ≡ codes "100"
unfolding flc_text strip eight_decimals digits digits_from
hundred_flc = refl

tenth_flc : flc_text eight_decimals 10000000 ≡ codes "0.1"
unfolding flc_text strip eight_decimals digits digits_from
tenth_flc = refl

loki-flc_text_example : loki 0 (flc_text eight_decimals 123456000) ≡ 123456000
loki-flc_text_example = loki-flc_text eight_decimals (λ n h. refl) 123456000 (omega arith)

abbrev payment : String → ℕ → TransactionItem
payment hash amount = record {
  tx_hash = hash;
  amount = pos amount;
  confirmations = 1;
  block_height = 9;
  timestamp = 0;
  addresses = [];
  label = "";
  fee = 0;
}

abbrev history : List (Option (List TransactionItem))
history =
    none ∷ some [] ∷ some (payment "a" 5 ∷ []) ∷ some (payment "b" 7 ∷ payment "a" 5 ∷ []) ∷ []

notices_are_news_example :
    (run eight_decimals history initial_watch).notices
    ≡ map (description eight_decimals) (news (payments history))
notices_are_news_example = notices_are_news eight_decimals history

-- one notice for two payments
one_notice : map (λ tx. tx.tx_hash) (news (payments history)) ≡ "b" ∷ []
unfolding news payments changes
one_notice = refl

abbrev first_letter_type : String → AddrType
first_letter_type a = if str_eq a "taproot-address" then taproot else segwit

abbrev at_first : Both
at_first = record {
  view = loaded (ok taproot) (ok "taproot-address") mounted;
  preference = taproot;
  awaited_type = none;
  awaited_new = none;
  type_lost = false;
}

address_has_shown_type_example :
    let s = new_clicked (type_clicked segwit at_first) in
    (first_letter_type s.view.address ≡ s.view.addr_type) × (s.view.addr_type ≡ s.preference)
address_has_shown_type_example =
    address_has_shown_type first_letter_type (new_clicked (type_clicked segwit at_first))
      (asked (type_clicked segwit at_first)
        (picked segwit at_first (opened taproot "taproot-address" refl)))
      refl

abbrev form : Security
form = record {
  current_pwd = codes "old";
  new_pwd = codes "twelve chars";
  confirm_pwd = codes "twelve chars";
  changing = false;
  current_error = none;
  new_error = none;
  confirm_error = none;
  transition = end_transition;
  settle_timer = none;
  end_timer = none;
  out = [];
}

click_update-IsSent_example :
    ((1 ≤ length form.current_pwd)
      × (8 ≤ length form.new_pwd)
      × (form.new_pwd ≡ form.confirm_pwd)
      × ((click_update form).out ≡ patch_password form.current_pwd form.new_pwd ∷ [])
      × ((click_update form).changing ≡ true)
      × ((click_update form).transition.is_active ≡ true))
    ⊎ (((click_update form).out ≡ [])
        × ((click_update form).changing ≡ false)
        × ((click_update form).transition ≡ form.transition)
        × ((is_some (click_update form).current_error
              || is_some (click_update form).new_error
              || is_some (click_update form).confirm_error)
            ≡ true))
click_update-IsSent_example = click_update-IsSent form refl
