-- ===== src/Regex/Expr.antt =====
-- Regular expressions without captures, and the matcher.
use lokinode.Common.{
  Bool, Text, [], false, if◌then◌else◌, leb, suc, true, zero, ℕ, ◌&&◌, ◌==◌, ◌||◌, ◌∷◌,
}

pub data Regex : Type 0 where
  never : Regex
  nothing : Regex
  one_of : (ℕ → Bool) → Regex
  seq either : Regex → Regex → Regex
  star : Regex → Regex

unfoldable pub nullable : Regex → Bool
nullable never = false
nullable nothing = true
nullable (one_of p) = false
nullable (seq r s) = nullable r && nullable s
nullable (either r s) = nullable r || nullable s
nullable (star r) = true

-- what is left to match after the character `c`
unfoldable pub after : Regex → ℕ → Regex
unfolding nullable
after never c = never
after nothing c = never
after (one_of p) c = if p c then nothing else never
after (seq r s) c = if nullable r then either (seq (after r c) s) (after s c) else seq (after r c) s
after (either r s) c = either (after r c) (after s c)
after (star r) c = seq (after r c) (star r)

unfoldable pub matches : Regex → Text → Bool
unfolding nullable after
matches r [] = nullable r
matches r (c ∷ t) = matches (after r c) t

-- a character, an optional part, one or more, and a text
abbrev pub char : ℕ → Regex
char c = one_of (λ d. d == c)

abbrev pub optional : Regex → Regex
optional r = either nothing r

abbrev pub plus : Regex → Regex
plus r = seq r (star r)

-- from one to `suc n` times
abbrev pub up_to : ℕ → Regex → Regex
up_to zero r = r
up_to (suc n) r = seq r (optional (up_to n r))

abbrev pub times : ℕ → Regex → Regex
times zero r = nothing
times (suc n) r = seq r (times n r)

abbrev pub literal : Text → Regex
literal [] = nothing
literal (c ∷ t) = seq (char c) (literal t)

abbrev pub anything : Regex
anything = star (one_of (λ c. true))

abbrev pub is_digit : ℕ → Bool
is_digit c = leb b'0' c && leb c b'9'

abbrev pub is_hex : ℕ → Bool
is_hex c = is_digit c || (leb b'a' c && leb c b'f') || (leb b'A' c && leb c b'F')

abbrev pub is_letter : ℕ → Bool
is_letter c = (leb b'a' c && leb c b'z') || (leb b'A' c && leb c b'Z')

abbrev pub digit : Regex
digit = one_of is_digit
