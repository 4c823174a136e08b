-- ===== src/Common/Strings.antt =====
-- A text that the program walks is the list of its UTF-16 code units. Here are the methods of JavaScript
-- strings that the program calls on such texts.
use Prim.Native.Nat.{ℕ, ◌+◌}
use text.Mathlib.Text.{◌==◌ as str_eq}
use Prim.Native.Char.{code}
use Prim.Native.String.{String}
use mathlib.Core.Bool.{Bool, true, false, ◌&&◌, ◌||◌}
use mathlib.Core.List.{List, [], ◌∷◌, ◌++◌}
use mathlib.Core.Path.{◌≡◌, refl}
use native.Mathlib.Omega.{arith}
use lokinode.Common.Tests.{◌==◌, leb, if◌then◌else◌}

abbrev pub Text : Type 0
Text = List ℕ

abbrev pub codes : String → Text
codes String.[] = []
codes (String.◌∷◌ c s) = code c ∷ codes s

-- the part before the first separator goes in front of those that are there
abbrev push : ℕ → Text × List Text → Text × List Text
push c (p, ps) = (c ∷ p, ps)

abbrev cut : Text × List Text → Text × List Text
cut (p, ps) = ([], p ∷ ps)

-- `s.split(sep)` for a separator of one character; there is always a first part
unfoldable pub split : ℕ → Text → Text × List Text
split sep [] = ([], [])
split sep (c ∷ s) = let rest = split sep s in if c == sep then cut rest else push c rest

-- `parts.join(sep)`
unfoldable pub join : Text → List Text → Text
join sep [] = []
join sep (p ∷ []) = p
join sep (p ∷ q ∷ ps) = p ++ sep ++ join sep (q ∷ ps)

abbrev pub is_empty {ℓ} : {A : Type ℓ} → List A → Bool
is_empty [] = true
is_empty (x ∷ xs) = false

-- `s.startsWith(p)`
unfoldable pub starts_with : Text → Text → Bool
starts_with s [] = true
starts_with [] (d ∷ p) = false
starts_with (c ∷ s) (d ∷ p) = c == d && starts_with s p

-- `s.includes(p)`
unfoldable pub includes : Text → Text → Bool
unfolding starts_with
includes [] p = starts_with [] p
includes (c ∷ s) p = starts_with (c ∷ s) p || includes s p

-- the characters that `trim` and `\s` take for white space
unfoldable pub is_space : ℕ → Bool
is_space c =
    (leb 9 c && leb c 13)
    || c == 32
    || c == 0xa0
    || c == 0x1680
    || (leb 0x2000 c && leb c 0x200a)
    || c == 0x2028
    || c == 0x2029
    || c == 0x202f
    || c == 0x205f
    || c == 0x3000
    || c == 0xfeff

unfoldable pub trim_start : Text → Text
unfolding is_space
trim_start [] = []
trim_start (c ∷ s) = if is_space c then trim_start s else c ∷ s

unfoldable pub trim_end : Text → Text
unfolding is_space
trim_end [] = []
trim_end (c ∷ s) = let rest = trim_end s in if is_space c && is_empty rest then [] else c ∷ rest

-- `s.trim()`
unfoldable pub trim : Text → Text
unfolding trim_start trim_end
trim s = trim_end (trim_start s)

-- `!s.trim()`
abbrev pub is_blank : Text → Bool
is_blank s = is_empty (trim s)

-- the word at hand goes in front of the later ones, if it is not empty
abbrev close_word : Text × List Text → List Text
close_word ([], ws) = ws
close_word (c ∷ w, ws) = (c ∷ w) ∷ ws

unfoldable pub split_words : Text → Text × List Text
unfolding is_space
split_words [] = ([], [])
split_words (c ∷ s) =
    let rest = split_words s in if is_space c then ([], close_word rest) else push c rest

-- `s.trim().split(/\s+/).filter(Boolean)`
unfoldable pub words : Text → List Text
unfolding split_words
words s = close_word (split_words s)

unfoldable pub text_eq : Text → Text → Bool
text_eq [] [] = true
text_eq (c ∷ s) (d ∷ t) = c == d && text_eq s t
text_eq _ _ = false

pub text_eq→eq : (s t : Text) → text_eq s t ≡ true → s ≡ t
unfolding text_eq
text_eq→eq [] [] h = refl
text_eq→eq (c ∷ s) (d ∷ t) h = grind (arith, text_eq→eq s t)
text_eq→eq [] (d ∷ t) h = cc
text_eq→eq (c ∷ s) [] h = cc

pub text_eq_self : (s : Text) → text_eq s s ≡ true
unfolding text_eq
text_eq_self [] = refl
text_eq_self (c ∷ s) = ground (arith, text_eq_self s)

-- numbers, and the test of equality of texts
pub ruleset text_tests = (arith, text_eq→eq, text_eq_self)

-- `s.toLowerCase()` on the letters of ASCII; the other letters stay as they are
unfoldable pub lower : Text → Text
lower [] = []
lower (c ∷ s) = (if leb 65 c && leb c 90 then c + 32 else c) ∷ lower s

-- the method `trim` on the texts that no other code takes apart
unfoldable pub trim_string_start : String → String
unfolding is_space
trim_string_start String.[] = String.[]
trim_string_start (String.◌∷◌ c s) =
    if is_space (code c) then trim_string_start s else String.◌∷◌ c s

unfoldable pub trim_string_end : String → String
unfolding is_space
trim_string_end String.[] = String.[]
trim_string_end (String.◌∷◌ c s) =
    let rest = trim_string_end s in
    if is_space (code c) && str_eq rest "" then String.[] else String.◌∷◌ c rest

unfoldable pub trim_string : String → String
unfolding trim_string_start trim_string_end
trim_string s = trim_string_end (trim_string_start s)
