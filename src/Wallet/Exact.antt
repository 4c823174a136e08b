-- ===== src/Wallet/Exact.antt =====
-- The text of an amount in frontend/src/hooks/useNotifyIncoming.ts read back.
use lokinode.Common.{
  Bool-cases, Text, [], ap, are_digits, are_digits-digits, arith, digits, false, if◌then◌else◌, inl,
  inr, read, read-digits, refl, suc, sym, true, zero, ℕ, ◌%◌, ◌*◌, ◌++◌, ◌+◌, ◌-◌, ◌/◌, ◌<◌, ◌==◌,
  ◌^◌, ◌∙◌, ◌∷◌, ◌≡◌,
}
use lokinode.Wallet.Amounts.{all_zeros, flc_text, is_tail, is_zeros, places, strip, eight_decimals}

-- what decimals stand for, the first at the place of 10^k
unfoldable pub decimals : ℕ → Text → ℕ
decimals zero s = 0
decimals (suc k) [] = 0
decimals (suc k) (c ∷ s) = (c - 48) * 10 ^ k + decimals k s

-- the number of loki that an amount in FLC stands for
unfoldable pub loki : ℕ → Text → ℕ
unfolding decimals
loki acc [] = acc * 100000000
loki acc (c ∷ s) =
    if c == b'.' then acc * 100000000 + decimals 8 s else loki (acc * 10 + (c - 48)) s

decimals-zeros : (k : ℕ) (s : Text) → all_zeros s ≡ true → decimals k s ≡ 0
unfolding decimals
decimals-zeros zero s h = refl
decimals-zeros (suc k) [] h = refl
decimals-zeros (suc k) (c ∷ s) h =
    let zero_digit : c - 48 ≡ 0 = ground arith in
    let rest : all_zeros s ≡ true = ground arith in
    rw (zero_digit, decimals-zeros k s rest) (omega arith)

decimals-strip : (k : ℕ) (s : Text) → are_digits s ≡ true → decimals k (strip s) ≡ decimals k s
unfolding decimals strip
decimals-strip zero s h = refl
decimals-strip (suc k) [] h = refl
decimals-strip (suc k) (c ∷ s) h =
    let more : are_digits s ≡ true = ground arith in
    elim (Bool-cases (is_tail (c ∷ s))) [
      | inl t ↦ rw t (sym (decimals-zeros (suc k) (c ∷ s) (ground arith)))
      | inr t ↦ rw (t, decimals-strip k s more) refl
    ]

decimals-places : (n : ℕ) → decimals 8 (places 8 n) ≡ n % 100000000
unfolding decimals
decimals-places n =
    let a : decimals 2 (places 2 n) ≡ n % 100 = omega arith in
    let b : decimals 4 (places 4 n) ≡ n % 10000 = omega (arith, a) in
    let c : decimals 6 (places 6 n) ≡ n % 1000000 = omega (arith, b) in omega (arith, c)

places-digits : (k n : ℕ) → are_digits (places k n) ≡ true
places-digits zero n = refl
places-digits (suc k) n = ground (arith, places-digits k n)

-- a dot behind: the zeros before it are no tail
all_zeros-dot : (s t : Text) → all_zeros (s ++ b'.' ∷ t) ≡ false
all_zeros-dot [] t = refl
all_zeros-dot (c ∷ s) t = ground (arith, all_zeros-dot s t)

strip-append : (s t : Text) → are_digits s ≡ true → strip (s ++ b'.' ∷ t) ≡ s ++ strip (b'.' ∷ t)
unfolding strip
strip-append [] t h = refl
strip-append (c ∷ s) t h =
    let more : are_digits s ≡ true = ground arith in
    let no_tail : is_tail (c ∷ s ++ b'.' ∷ t) ≡ false = ground (arith, all_zeros-dot s t) in
    rw (no_tail, strip-append s t more) refl

loki-append : (acc : ℕ) (s t : Text) → are_digits s ≡ true → loki acc (s ++ t) ≡ loki (read acc s) t
unfolding loki read
loki-append acc [] t h = refl
loki-append acc (c ∷ s) t h =
    let more : are_digits s ≡ true = ground arith in
    let no_dot : (c == b'.') ≡ false = ground arith in
    rw no_dot (loki-append (acc * 10 + (c - 48)) s t more)

loki-dot :
    (acc : ℕ) (s : Text)
    → are_digits s ≡ true
    → loki acc (strip (b'.' ∷ s)) ≡ acc * 100000000 + decimals 8 s
unfolding loki strip
loki-dot acc s h = elim (Bool-cases (is_zeros s)) [
  | inl z ↦ rw z (ground (arith, decimals-zeros 8 s))
  | inr n ↦ rw n (ap (λ m. acc * 100000000 + m) (decimals-strip 8 s h))
]

eight_decimals-loki : (amount : ℕ) → loki 0 (strip (eight_decimals amount)) ≡ amount
unfolding eight_decimals
eight_decimals-loki amount =
    let whole = amount / 100000000 in
    let d = are_digits-digits whole in
    let p = places-digits 8 amount in
    ap (loki 0) (strip-append (digits whole) (places 8 amount) d)
    ∙ loki-append 0 (digits whole) (strip (b'.' ∷ places 8 amount)) d
    ∙ loki-dot (read 0 (digits whole)) (places 8 amount) p
    ∙ ap (λ w. w * 100000000 + decimals 8 (places 8 amount)) (read-digits whole)
    ∙ ap (λ f. whole * 100000000 + f) (decimals-places amount)
    ∙ omega arith

-- Where `toFixed` gives the decimals of the exact quotient for amounts below 2^52 loki, the text of such an
-- amount in a notice, read as an amount in FLC, is the amount.
pub loki-flc_text :
    (to_fixed : ℕ → Text)
    → ((n : ℕ) → n < 2 ^ 52 → to_fixed n ≡ eight_decimals n)
    → (amount : ℕ) → amount < 2 ^ 52
    → loki 0 (flc_text to_fixed amount) ≡ amount
unfolding flc_text
loki-flc_text to_fixed exact amount small =
    ap (λ s. loki 0 (strip s)) (exact amount small) ∙ eight_decimals-loki amount
