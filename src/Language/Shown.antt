-- ===== src/Language/Shown.antt =====
-- What `t` of frontend/src/i18n/context.tsx shows, with the tables of
-- frontend/src/i18n/translations.ts: the tests run on the six languages.
use lokinode.Language.{substitute, or_text, entry, translate}
use lokinode.Common.{
  All, Bool-cases, List, Option, Option-cases, String, Text, [], ap, arith, codes, inl, inr,
  is_some, none, refl, some, str_eq, string_tests, true, ◌∷◌, ◌≡◌, ◌≢◌,
}
use mathlib.Core.Path.{subst}
use mathlib.Core.Option.{some-injective}
use lokinode.Translations.Table.{Table, lookup}
use lokinode.Translations.En.{en}
use lokinode.Translations.Ru.{ru}
use lokinode.Translations.Zh.{zh}
use lokinode.Translations.Es.{es}
use lokinode.Translations.Ja.{ja}
use lokinode.Translations.Ko.{ko}
use lokinode.Translations.Resources.{resources, tables}
use lokinode.Language.Template.{unopened, plain}
use lokinode.Language.Complete.{
  IsTranslation, Agree, IsComplete, covers, all_within, distinct, checked-IsComplete,
}

en-IsComplete : IsComplete en
unfolding covers all_within distinct en unopened plain
en-IsComplete = checked-IsComplete en refl refl refl

ru-IsComplete : IsComplete ru
unfolding covers all_within distinct en ru unopened plain
ru-IsComplete = checked-IsComplete ru refl refl refl

zh-IsComplete : IsComplete zh
unfolding covers all_within distinct en zh unopened plain
zh-IsComplete = checked-IsComplete zh refl refl refl

es-IsComplete : IsComplete es
unfolding covers all_within distinct en es unopened plain
es-IsComplete = checked-IsComplete es refl refl refl

ja-IsComplete : IsComplete ja
unfolding covers all_within distinct en ja unopened plain
ja-IsComplete = checked-IsComplete ja refl refl refl

ko-IsComplete : IsComplete ko
unfolding covers all_within distinct en ko unopened plain
ko-IsComplete = checked-IsComplete ko refl refl refl

module _ {ℓ} {A : Type ℓ} where
  lookup-All :
      (P : A → Type 0) (ts : List (String × A)) (k : String) (a : A)
      → All (λ e. P e.1) ts
      → lookup ts k ≡ some a
      → P a
  unfolding lookup
  lookup-All P [] k a h e = cc
  lookup-All P ((j, b) ∷ ts) k a h e = elim (Bool-cases (str_eq j k)) [
    | inl q ↦ subst P (some-injective b a (ground arith)) h.0
    | inr q ↦ lookup-All P ts k a h.1 (ground arith)
  ]

-- Every table of `resources` has the keys of the English one, each once, and no others; each of its texts
-- is not empty, reads as literal parts and placeholders, and has the placeholders of the English text.
pub every_language-IsComplete : (lang : String) (t : Table) → resources lang ≡ some t → IsComplete t
unfolding resources tables
every_language-IsComplete lang t h =
    lookup-All IsComplete tables lang t
      (
        en-IsComplete,
        (ru-IsComplete, (zh-IsComplete, (es-IsComplete, (ja-IsComplete, (ko-IsComplete, tt))))),
      )
      h

-- what stands under a key of the English table in another one
Agree-some :
    (e : String) (o : Option String)
    → Agree (some e) o
    → (x : String) × (o ≡ some x) × IsTranslation e x
unfolding Agree
Agree-some e none g = absurd g
Agree-some e (some x) g = (x, refl, g)

IsTranslation-of :
    (lang : String) (t : Table) (key e : String)
    → resources lang ≡ some t
    → lookup en key ≡ some e
    → (x : String) × (lookup t key ≡ some x) × IsTranslation e x
unfolding IsComplete
IsTranslation-of lang t key e h k =
    Agree-some e (lookup t key)
      (subst (λ o. Agree o (lookup t key)) k ((every_language-IsComplete lang t h).1 key))

-- neither the English text nor the key is taken
own-text : (x y key : String) → x ≢ "" → or_text (or_text x y) key ≡ x
own-text x y key n = grind string_tests

translate-own :
    (lang : String) (t : Table) (key x : String) (params : List (Text × Text))
    → resources lang ≡ some t
    → lookup t key ≡ some x
    → x ≢ ""
    → translate lang key params ≡ substitute params (codes x)
unfolding translate entry
translate-own lang t key x params h i n =
    rw (h, i) (ap (λ y. substitute params (codes y)) (own-text x _ key n))

-- the language's own text of a key without placeholders
unfoldable pub IsShown : String → Table → String → Type 0
IsShown lang t key =
    (x : String) × (lookup t key ≡ some x) × (x ≢ "") × (translate lang key [] ≡ codes x)

pub known-IsShown :
    (lang : String) (t : Table) (key : String)
    → resources lang ≡ some t
    → is_some (lookup en key) ≡ true
    → IsShown lang t key
unfolding IsShown IsTranslation substitute
known-IsShown lang t key h k = elim (Option-cases (lookup en key)) [
  | inl e ↦ ground (arith, e, k)
  | inr (d, e) ↦
      let (x, i, g) = IsTranslation-of lang t key d h e in
      (x, i, g.0, translate-own lang t key x [] h i g.0)
]

-- a key of the English table, where there is a key
unfoldable pub IsKey : Option String → Type 0
IsKey none = Unit
IsKey (some key) = is_some (lookup en key) ≡ true

unfoldable pub IsShownIfAny : String → Table → Option String → Type 0
IsShownIfAny lang t none = Unit
IsShownIfAny lang t (some key) = IsShown lang t key

pub key-IsShown :
    (lang : String) (t : Table) (o : Option String)
    → resources lang ≡ some t
    → IsKey o
    → IsShownIfAny lang t o
unfolding IsKey IsShownIfAny
key-IsShown lang t none h k = tt
key-IsShown lang t (some key) h k = known-IsShown lang t key h k
