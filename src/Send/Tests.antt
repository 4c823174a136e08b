-- ===== src/Send/Tests.antt =====
-- Runs of the view.
use lokinode.Send.Amounts.{click_review-IsCovered, IsCovered, fundings}
use lokinode.Fetcher.{ok}
use lokinode.Send.{
  handle_release, review_done, loki_per_vbyte, screen, amount_loki, click_review, unmount, Page,
  initial, OutputLock, FundPsbtResponse,
}
use lokinode.Send.Steps.{
  handle, Input, address_typed, amount_typed, balance_came, review_clicked, fund_answered,
  back_clicked,
}
use lokinode.Send.Locks.{unmount_releases_everything, locks_accounted, held, released, run, IsSound}
use lokinode.Common.{
  All, List, Option, String, [], arith, if◌then◌else◌, none, pos, refl, some, str_eq, true, ℕ, ℤ,
  ◌++◌, ◌∷◌, ◌≡◌, ◌≢◌, ◌⊎◌,
}

abbrev loki_of : String → Option ℤ
loki_of s = if str_eq s "0.5" then some (pos 50000000) else none

abbrev decimal_of : ℕ → String
decimal_of n = "0.5"

abbrev lock : OutputLock
lock = record { id = "a"; txid_bytes = "ff"; output_index = 1 }

abbrev funded : FundPsbtResponse
funded = record { psbt = "cHNidP8="; total_fee = 700; locks = lock ∷ [] }

abbrev rich : Page
rich = record initial {
  balance = some (record {
    ready = true;
    confirmed = 60000000;
    unconfirmed = pos 0;
    locked = 0;
    total = 60000000;
  });
  address = "lc1q";
  amount = "0.5";
}

abbrev review_and_back : List Input
review_and_back =
    address_typed "lc1q"
    ∷ amount_typed "0.5"
    ∷ balance_came rich.balance
    ∷ review_clicked
    ∷ fund_answered (ok funded)
    ∷ back_clicked
    ∷ review_clicked
    ∷ fund_answered (ok funded)
    ∷ []

review_and_back-IsSound : All IsSound review_and_back
review_and_back-IsSound = ground arith

review_and_back_end :
    let (p, fs) = run loki_of decimal_of initial [] review_and_back in
    (fs ≡ (lock ∷ []) ∷ (lock ∷ []) ∷ [])
    × (p.locks ≡ some (lock ∷ []))
    × (released p.out ≡ (lock ∷ []) ∷ [])
unfolding run handle screen click_review review_done handle_release released
review_and_back_end = (refl, refl, refl)

locks_accounted_example :
    let (p, fs) = run loki_of decimal_of initial [] review_and_back in
    fs ≡ held p.locks ++ released p.out
locks_accounted_example = locks_accounted loki_of decimal_of review_and_back review_and_back-IsSound

unmount_releases_everything_example :
    let (p, fs) = run loki_of decimal_of initial [] review_and_back in released (unmount p).out ≡ fs
unmount_releases_everything_example =
    unmount_releases_everything loki_of decimal_of review_and_back review_and_back-IsSound

click_review-IsCovered_example :
    (fundings (click_review loki_of rich).out ≡ fundings rich.out)
    ⊎ ((fundings (click_review loki_of rich).out
          ≡ (rich.address, amount_loki loki_of rich, loki_per_vbyte rich) ∷ fundings rich.out)
        × (rich.address ≢ "")
        × IsCovered rich (amount_loki loki_of rich))
click_review-IsCovered_example = click_review-IsCovered loki_of rich
