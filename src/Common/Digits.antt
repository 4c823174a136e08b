-- ===== src/Common/Digits.antt =====
-- Numbers in decimal: `String(n)`, `padStart(2, '0')`, and what a text of digits stands for.
use Prim.Native.Nat.{ℕ, zero, suc, ◌+◌, ◌-◌, ◌*◌, ◌/◌, ◌%◌, ◌<◌}
use mathlib.Core.Path.{◌≡◌, refl, ap, ◌∙◌}
use mathlib.Core.Bool.{Bool, true, false, ◌&&◌}
use mathlib.Core.List.{[], ◌∷◌, ◌++◌}
use mathlib.Core.Logic.{inl, inr}
use native.Mathlib.Omega.{arith}
use lokinode.Common.Tests.{ltb, leb, ltb→lt, Bool-cases}
use lokinode.Common.Lists.{all}
use lokinode.Common.Strings.{Text, is_empty}

unfoldable pub digits_from : ℕ → ℕ → Text
digits_from zero n = []
digits_from (suc fuel) n = elim (ltb n 10) [
  | true ↦ (48 + n) ∷ []
  | false ↦ digits_from fuel (n / 10) ++ (48 + n % 10) ∷ []
]

-- `String(n)`; one round for each digit is enough
unfoldable pub digits : ℕ → Text
unfolding digits_from
digits n = digits_from (suc n) n

-- `s.padStart(2, '0')`
unfoldable pub pad_start_2 : Text → Text
pad_start_2 [] = 48 ∷ 48 ∷ []
pad_start_2 (c ∷ []) = 48 ∷ c ∷ []
pad_start_2 s = s

-- the number that the digits of a text stand for, behind those of `acc`
unfoldable pub read : ℕ → Text → ℕ
read acc [] = acc
read acc (c ∷ s) = read (acc * 10 + (c - 48)) s

read-append : (acc : ℕ) (s t : Text) → read acc (s ++ t) ≡ read (read acc s) t
unfolding read
read-append acc [] t = refl
read-append acc (c ∷ s) t = read-append (acc * 10 + (c - 48)) s t

digits_from_small : (fuel n : ℕ) → ltb n 10 ≡ true → digits_from (suc fuel) n ≡ (48 + n) ∷ []
unfolding digits_from
digits_from_small fuel n h = rw (h, digits_from) refl

digits_from_large :
    (fuel n : ℕ)
    → ltb n 10 ≡ false
    → digits_from (suc fuel) n ≡ digits_from fuel (n / 10) ++ (48 + n % 10) ∷ []
unfolding digits_from
digits_from_large fuel n h = rw (h, digits_from) refl

read-digits_from : (fuel n : ℕ) → n < fuel → read 0 (digits_from fuel n) ≡ n
unfolding read digits_from
read-digits_from zero n h = absurd (omega arith)
read-digits_from (suc fuel) n h = elim (Bool-cases (ltb n 10)) [
  | inl small ↦ ap (read 0) (digits_from_small fuel n small) ∙ omega (arith, ltb→lt n 10 small)
  | inr large ↦
      ap (read 0) (digits_from_large fuel n large)
      ∙ read-append 0 (digits_from fuel (n / 10)) ((48 + n % 10) ∷ [])
      ∙ ap (λ m. m * 10 + ((48 + n % 10) - 48)) (read-digits_from fuel (n / 10) (ground arith))
      ∙ omega arith
]

pub read-digits : (n : ℕ) → read 0 (digits n) ≡ n
unfolding digits
read-digits n = read-digits_from (suc n) n (omega arith)

abbrev pub are_digits : Text → Bool
are_digits s = all (λ c. leb 48 c && leb c 57) s

are_digits-append :
    (s t : Text) → are_digits s ≡ true → are_digits t ≡ true → are_digits (s ++ t) ≡ true
are_digits-append [] t h k = k
are_digits-append (c ∷ s) t h k = ground (arith, are_digits-append s t (ground arith) k)

are_digits-digits_from : (fuel n : ℕ) → are_digits (digits_from fuel n) ≡ true
unfolding digits_from
are_digits-digits_from zero n = refl
are_digits-digits_from (suc fuel) n = elim (Bool-cases (ltb n 10)) [
  | inl small ↦ ap are_digits (digits_from_small fuel n small) ∙ ground (arith, ltb→lt n 10 small)
  | inr large ↦
      ap are_digits (digits_from_large fuel n large)
      ∙ are_digits-append (digits_from fuel (n / 10)) _ (are_digits-digits_from fuel (n / 10))
          (ground arith)
]

pub are_digits-digits : (n : ℕ) → are_digits (digits n) ≡ true
unfolding digits
are_digits-digits n = are_digits-digits_from (suc n) n

is_empty-append : (s : Text) (c : ℕ) → is_empty (s ++ c ∷ []) ≡ false
is_empty-append [] c = refl
is_empty-append (d ∷ s) c = refl

pub is_empty-digits : (n : ℕ) → is_empty (digits n) ≡ false
unfolding digits
is_empty-digits n = elim (Bool-cases (ltb n 10)) [
  | inl small ↦ ap is_empty (digits_from_small n n small)
  | inr large ↦
      ap is_empty (digits_from_large n n large)
      ∙ is_empty-append (digits_from n (n / 10)) (48 + n % 10)
]
