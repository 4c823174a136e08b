-- ===== src/Language/Template.antt =====
-- A text of the table as a template: literal parts and placeholders. `fill` is the independent
-- description of what the substitutions of frontend/src/i18n/context.tsx do: every placeholder gets the
-- text of the first parameter of its name, all of them at once.
use lokinode.Common.{
  Bool, List, Option, Text, [], drop, false, if◌then◌else◌, length, none, not, some, starts_with,
  suc, text_eq, true, zero, ℕ, ◌&&◌, ◌++◌, ◌+◌, ◌==◌, ◌||◌, ◌∷◌,
}

pub data Segment : Type 0 where
  literal : Text → Segment
  hole : Text → Segment

abbrev pub Template : Type 0
Template = List Segment

abbrev braced : Text → Text
braced name = 123 ∷ 123 ∷ (name ++ 125 ∷ 125 ∷ [])

abbrev pub print_segment : Segment → Text
print_segment (literal s) = s
print_segment (hole name) = braced name

unfoldable pub print : Template → Text
print [] = []
print (x ∷ xs) = print_segment x ++ print xs

-- the text of the first parameter of this name
unfoldable pub param : List (Text × Text) → Text → Option Text
param [] name = none
param ((k, v) ∷ params) name = if text_eq name k then some v else param params name

abbrev pub fill_segment : List (Text × Text) → Segment → Segment
fill_segment params (literal s) = literal s
fill_segment params (hole name) = elim (param params name) [ none ↦ hole name | some v ↦ literal v ]

unfoldable pub fill : List (Text × Text) → Template → Template
fill params [] = []
fill params (x ∷ xs) = fill_segment params x ∷ fill params xs

-- a text without the character that opens a placeholder
unfoldable pub unopened : Text → Bool
unopened [] = true
unopened (c ∷ s) = not (c == 123) && unopened s

-- a name: no brace in it
unfoldable pub plain : Text → Bool
plain [] = true
plain (c ∷ s) = not (c == 123) && not (c == 125) && plain s

-- the text of a parameter that opens no placeholder and has no pattern of a replacement
unfoldable pub harmless : Text → Bool
harmless [] = true
harmless (c ∷ s) = not (c == 123) && not (c == 36) && harmless s

abbrev pub sound_segment : Segment → Bool
sound_segment (literal s) = unopened s
sound_segment (hole name) = plain name

unfoldable pub sound : Template → Bool
sound [] = true
sound (x ∷ xs) = sound_segment x && sound xs

-- the parameters that a call may pass
unfoldable pub sound_params : List (Text × Text) → Bool
unfolding plain harmless
sound_params [] = true
sound_params ((k, v) ∷ params) = plain k && harmless v && sound_params params

-- the template has a placeholder of this name
unfoldable pub mentions : Template → Text → Bool
mentions [] k = false
mentions (literal s ∷ xs) k = mentions xs k
mentions (hole name ∷ xs) k = text_eq name k || mentions xs k

-- the template of a text
abbrev until_brace : Text → Text
until_brace [] = []
until_brace (c ∷ s) = if c == 125 then [] else c ∷ until_brace s

abbrev in_front : ℕ → Template → Template
in_front c (literal s ∷ xs) = literal (c ∷ s) ∷ xs
in_front c xs = literal (c ∷ []) ∷ xs

unfoldable parse_from : ℕ → Text → Template
unfolding starts_with
parse_from skip [] = []
parse_from (suc skip) (c ∷ s) = parse_from skip s
parse_from zero (c ∷ s) = elim (starts_with (c ∷ s) (123 ∷ 123 ∷ [])) [
  | true ↦ hole (until_brace (drop 1 s)) ∷ parse_from (length (until_brace (drop 1 s)) + 3) s
  | false ↦ in_front c (parse_from 0 s)
]

unfoldable pub parse : Text → Template
unfolding parse_from
parse s = parse_from 0 s
