-- ===== src/Language/Complete.antt =====
-- Each language of frontend/src/i18n/translations.ts against the English texts: the test of a table, and
-- its run on the six tables.
use lokinode.Common.{
  Bool, Bool-cases, IsDistinct, List, Option, Option-cases, String, Text, [], arith, codes, eq_iff,
  false, has, inl, inr, is_some, none, not, refl, some, str_eq, string_tests, text_eq, text_eq→eq,
  text_tests, true, ◌&&◌, ◌∷◌, ◌≡◌, ◌≢◌,
}
use mathlib.Core.Path.{subst}
use mathlib.Core.Option.{some-injective}
use lokinode.Translations.Table.{Table, lookup, keys}
use lokinode.Translations.En.{en}
use lokinode.Language.Template.{Template, parse, print, sound, mentions, Segment}

-- the text of a language and the English one: a text, with the same placeholders
unfoldable pub IsTranslation : String → String → Type 0
IsTranslation e x =
    (x ≢ "")
    × (print (parse (codes x)) ≡ codes x)
    × (sound (parse (codes x)) ≡ true)
    × ((k : Text) → mentions (parse (codes x)) k ≡ mentions (parse (codes e)) k)

-- what two tables have under one key
unfoldable pub Agree : Option String → Option String → Type 0
Agree none none = Unit
Agree (some e) (some x) = IsTranslation e x
Agree _ _ = ⊥

-- the type `Translations`: the keys of the English table, each once
unfoldable pub IsComplete : Table → Type 0
IsComplete t = IsDistinct (keys t) × ((key : String) → Agree (lookup en key) (lookup t key))

-- all placeholders of a template are among those of another one
unfoldable mentioned : Template → Template → Bool
unfolding mentions
mentioned [] ys = true
mentioned (Segment.literal s ∷ xs) ys = mentioned xs ys
mentioned (Segment.hole name ∷ xs) ys = mentions ys name && mentioned xs ys

-- a text that may stand for an English one
unfoldable pub stands_for : Text → String → Bool
unfolding parse print sound mentioned text_eq
stands_for e x =
    not (str_eq x "")
    && text_eq (print (parse (codes x))) (codes x)
    && sound (parse (codes x))
    && mentioned (parse (codes x)) (parse e)
    && mentioned (parse e) (parse (codes x))

unfoldable pub found : Text → Option String → Bool
unfolding stands_for
found e none = false
found e (some x) = stands_for e x

unfoldable pub covers : Table → Table → Bool
unfolding found lookup
covers [] t = true
covers ((k, e) ∷ rest) t = found (codes e) (lookup t k) && covers rest t

unfoldable pub all_within : List String → List String → Bool
unfolding has
all_within [] ks = true
all_within (j ∷ js) ks = has j ks && all_within js ks

unfoldable pub distinct : List String → Bool
unfolding has
distinct [] = true
distinct (k ∷ ks) = not (has k ks) && distinct ks

distinct-IsDistinct : (ks : List String) → distinct ks ≡ true → IsDistinct ks
unfolding distinct
distinct-IsDistinct [] h = tt
distinct-IsDistinct (k ∷ ks) h = (ground arith, distinct-IsDistinct ks (ground arith))

mentioned-mentions :
    (xs ys : Template) (k : Text)
    → mentioned xs ys ≡ true
    → mentions xs k ≡ true
    → mentions ys k ≡ true
unfolding mentioned mentions
mentioned-mentions [] ys k h m = cc
mentioned-mentions (Segment.literal s ∷ xs) ys k h m = mentioned-mentions xs ys k h m
mentioned-mentions (Segment.hole n ∷ xs) ys k h m = elim (Bool-cases (text_eq n k)) [
  | inl e ↦ grind (text_tests, text_eq→eq n k e)
  | inr e ↦ mentioned-mentions xs ys k (ground arith) (ground arith)
]

mentioned-both :
    (xs ys : Template) (k : Text)
    → mentioned xs ys ≡ true
    → mentioned ys xs ≡ true
    → mentions xs k ≡ mentions ys k
mentioned-both xs ys k h i =
    ground (arith, mentioned-mentions xs ys k h, mentioned-mentions ys xs k i)

stands_for-IsTranslation : (e x : String) → stands_for (codes e) x ≡ true → IsTranslation e x
unfolding stands_for IsTranslation
stands_for-IsTranslation e x h = (
  grind string_tests,
  text_eq→eq (print (parse (codes x))) (codes x) (ground arith),
  ground arith,
  λ k. mentioned-both (parse (codes x)) (parse (codes e)) k (ground arith) (ground arith),
)

found-Agree : (e : String) (o : Option String) → found (codes e) o ≡ true → Agree (some e) o
unfolding found Agree
found-Agree e none h = cc
found-Agree e (some x) h = stands_for-IsTranslation e x h

covers-found :
    (base t : Table) (key e : String)
    → covers base t ≡ true
    → lookup base key ≡ some e
    → found (codes e) (lookup t key) ≡ true
unfolding covers lookup
covers-found [] t key e h i = cc
covers-found ((k, d) ∷ rest) t key e h i = elim (Bool-cases (str_eq k key)) [
  | inl q ↦
      subst (λ w. found (codes w) (lookup t key) ≡ true) (some-injective d e (ground arith))
        (subst (λ z. found (codes d) (lookup t z) ≡ true) ((eq_iff k key).0 q) (ground arith))
  | inr q ↦ covers-found rest t key e (ground arith) (ground arith)
]

all_within-has :
    (js ks : List String) (k : String) → all_within js ks ≡ true → has k js ≡ true → has k ks ≡ true
unfolding all_within has
all_within-has [] ks k h i = cc
all_within-has (j ∷ js) ks k h i = elim (Bool-cases (str_eq j k)) [
  | inl q ↦ grind (string_tests, q)
  | inr q ↦ all_within-has js ks k (ground arith) (ground arith)
]

module _ {ℓ} {A : Type ℓ} where
  has-lookup : (t : List (String × A)) (key : String) → has key (keys t) ≡ is_some (lookup t key)
  unfolding has lookup
  has-lookup [] key = refl
  has-lookup ((k, a) ∷ t) key = ground (arith, has-lookup t key)

none-Agree : (t : Table) (key : String) → has key (keys t) ≡ false → Agree none (lookup t key)
unfolding Agree
none-Agree t key h = elim (Option-cases (lookup t key)) [
  | inl e ↦ rw e tt
  | inr (x, e) ↦ ground (arith, has-lookup t key, e, h)
]

pub checked-IsComplete :
    (t : Table)
    → covers en t ≡ true
    → all_within (keys t) (keys en) ≡ true
    → distinct (keys t) ≡ true
    → IsComplete t
unfolding IsComplete
checked-IsComplete t c w d = (
  distinct-IsDistinct (keys t) d,
  λ key. elim (Option-cases (lookup en key)) [
    | inl e ↦ rw e (
        none-Agree t key
          (ground (arith, all_within-has (keys t) (keys en) key w, has-lookup en key, e)))
    | inr (x, e) ↦ rw e (found-Agree x (lookup t key) (covers-found en t key x c e))
  ],
)
