-- ===== src/Send/Amounts.antt =====
-- What the view asks the wallet to fund.
use lokinode.Common.{
  List, Option, String, [], negsuc, pos, string_tests, ℕ, ℤ, ◌+◌, ◌<◌, ◌∷◌, ◌≡◌, ◌≢◌, ◌≤◌, ◌⊎◌,
}
use lokinode.Send.{
  Page, Call, post_fund, click_review, balance_loki, rough_fee_loki, amount_loki, loki_per_vbyte,
}

-- the amounts that the calls ask to fund, last first
unfoldable pub fundings : List Call → List (String × ℤ × ℕ)
fundings [] = []
fundings (post_fund address amount rate ∷ cs) = (address, amount, rate) ∷ fundings cs
fundings (_ ∷ cs) = fundings cs

-- a payment that the balance covers together with the rough fee
abbrev pub IsCovered : Page → ℤ → Type 0
IsCovered p (pos n) = (0 < n) × (n + rough_fee_loki p ≤ balance_loki p)
IsCovered p (negsuc n) = ⊥

-- A click on Review asks for nothing, or for one transaction: to the address that was entered, which is
-- not empty, of an amount above 0 that the confirmed balance covers together with the rough fee, at the
-- rate of the preset.
pub click_review-IsCovered :
    (loki_of : String → Option ℤ) (p : Page)
    → (fundings (click_review loki_of p).out ≡ fundings p.out)
      ⊎ ((fundings (click_review loki_of p).out
            ≡ (p.address, amount_loki loki_of p, loki_per_vbyte p) ∷ fundings p.out)
          × (p.address ≢ "")
          × IsCovered p (amount_loki loki_of p))
unfolding click_review fundings
click_review-IsCovered loki_of p = grind string_tests
