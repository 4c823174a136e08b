-- ===== src/Wallet/Amounts.antt =====
-- The amount in the notice of a payment, frontend/src/hooks/useNotifyIncoming.ts. An amount is a number
-- of loki, 10^8 of them one FLC. `(amount / 1e8).toFixed(8)`, a floating-point quotient and its decimals, is
-- the parameter `to_fixed`; `eight_decimals` is the text of the exact quotient.
use lokinode.Common.{
  Bool, Text, [], digits, false, if◌then◌else◌, is_empty, not, suc, true, zero, ℕ, ◌%◌, ◌&&◌, ◌++◌,
  ◌+◌, ◌/◌, ◌==◌, ◌^◌, ◌||◌, ◌∷◌,
}

-- the last `k` digits of a number
abbrev pub places : ℕ → ℕ → Text
places zero n = []
places (suc k) n = (48 + n / 10 ^ k % 10) ∷ places k n

-- the eight decimals of `n / 10^8`, exact
unfoldable pub eight_decimals : ℕ → Text
unfolding digits
eight_decimals n = digits (n / 100000000) ++ b'.' ∷ places 8 n

abbrev pub all_zeros : Text → Bool
all_zeros [] = true
all_zeros (c ∷ s) = c == b'0' && all_zeros s

-- `0+$` and `\.?0+$` match here
abbrev pub is_zeros : Text → Bool
is_zeros s = not (is_empty s) && all_zeros s

abbrev pub is_tail : Text → Bool
is_tail [] = false
is_tail (c ∷ s) = (c == b'.' && is_zeros s) || is_zeros (c ∷ s)

-- `s.replace(/\.?0+$/, '')`
unfoldable pub strip : Text → Text
strip [] = []
strip (c ∷ s) = let rest = strip s in if is_tail (c ∷ s) then [] else c ∷ rest

unfoldable pub flc_text : (to_fixed : ℕ → Text) → ℕ → Text
unfolding strip
flc_text to_fixed n = strip (to_fixed n)
