-- ===== src/Language/Fill.antt =====
-- The substitutions of `t` (frontend/src/i18n/context.tsx), which go one after the other over the whole
-- text, and the template of that text.
use lokinode.Common.{
  Bool-cases, List, Option-cases, Text, [], ap, arith, drop, false, inl, inr, is_some, length, refl,
  some, starts_with, suc, sym, text_eq, text_eq→eq, text_tests, true, zero, ℕ, ◌&&◌, ◌++◌, ◌-◌, ◌∙◌,
  ◌∷◌, ◌≡◌,
}
use mathlib.Core.List.{append_assoc}
use lokinode.Language.{replace_from, expand, placeholder, substitute}
use lokinode.Language.Template.{
  Segment, Template, print, print_segment, param, fill, fill_segment, unopened, plain, sound,
  sound_segment, sound_params, mentions, harmless,
}

plain-unopened : (s : Text) → plain s ≡ true → unopened s ≡ true
unfolding plain unopened
plain-unopened [] h = refl
plain-unopened (c ∷ s) h = ground (arith, plain-unopened s)

-- the replacement by a text without a dollar: it goes in as it is
unfoldable literal_from : Text → Text → ℕ → Text → Text
unfolding starts_with
literal_from p v skip [] = []
literal_from p v (suc skip) (c ∷ s) = literal_from p v skip s
literal_from p v zero (c ∷ s) = elim (starts_with (c ∷ s) p) [
  | true ↦ v ++ literal_from p v (length p - 1) s
  | false ↦ c ∷ literal_from p v zero s
]

expand-harmless :
    (match before after v : Text) → harmless v ≡ true → expand match before after false v ≡ v
unfolding expand harmless
expand-harmless match before after [] h = refl
expand-harmless match before after (c ∷ v) h = ground (arith, expand-harmless match before after v)

replace-literal :
    (p v : Text) (skip : ℕ) (before s : Text)
    → harmless v ≡ true
    → replace_from p v skip before s ≡ literal_from p v skip s
unfolding replace_from literal_from
replace-literal p v skip before [] h = refl
replace-literal p v (suc skip) before (c ∷ s) h = replace-literal p v skip (before ++ c ∷ []) s h
replace-literal p v zero before (c ∷ s) h = elim (Bool-cases (starts_with (c ∷ s) p)) [
  | inl e ↦
      rw
        (
          replace_from,
          literal_from,
          e,
          expand-harmless p before (drop (length p) (c ∷ s)) v h,
          replace-literal p v (length p - 1) (before ++ c ∷ []) s h,
        )
        refl
  | inr e ↦ rw (replace_from, literal_from, e, replace-literal p v zero (before ++ c ∷ []) s h) refl
]

-- the characters that a match has taken are passed over
replace-skip : (p v s r : Text) → literal_from p v (length s) (s ++ r) ≡ literal_from p v 0 r
unfolding literal_from
replace-skip p v [] r = refl
replace-skip p v (c ∷ s) r = replace-skip p v s r

skip-braced :
    (n k : Text)
    → text_eq n k ≡ true
    → length (placeholder k) - 1 ≡ suc (length (n ++ 125 ∷ 125 ∷ []))
skip-braced n k e = omega (arith, ap (λ x. length (x ++ 125 ∷ 125 ∷ [])) (sym (text_eq→eq n k e)))

replace-passed :
    (p v n r : Text)
    → literal_from p v (length (n ++ 125 ∷ 125 ∷ [])) (n ++ 125 ∷ 125 ∷ r) ≡ literal_from p v 0 r
replace-passed p v n r =
    ap (λ x. literal_from p v (length (n ++ 125 ∷ 125 ∷ [])) x)
      (sym (append_assoc n (125 ∷ 125 ∷ []) r))
    ∙ replace-skip p v (n ++ 125 ∷ 125 ∷ []) r

-- nothing is replaced before the first brace
replace-unopened :
    (q v s r : Text)
    → unopened s ≡ true
    → literal_from (123 ∷ q) v 0 (s ++ r) ≡ s ++ literal_from (123 ∷ q) v 0 r
unfolding literal_from unopened starts_with
replace-unopened q v [] r h = refl
replace-unopened q v (c ∷ s) r h = ground (arith, replace-unopened q v s r)

-- a placeholder is met where the names are equal
starts-name :
    (n k r : Text)
    → plain n ≡ true
    → plain k ≡ true
    → starts_with (n ++ 125 ∷ 125 ∷ r) (k ++ 125 ∷ 125 ∷ []) ≡ text_eq n k
unfolding starts_with plain text_eq
starts-name [] [] r hn hk = refl
starts-name [] (d ∷ k) r hn hk = ground arith
starts-name (c ∷ n) [] r hn hk = ground arith
starts-name (c ∷ n) (d ∷ k) r hn hk = ground (arith, starts-name n k r)

second-brace : (n k r : Text) → plain n ≡ true → starts_with (n ++ 125 ∷ r) (123 ∷ k) ≡ false
unfolding starts_with plain
second-brace [] k r h = refl
second-brace (c ∷ n) k r h = ground arith

module _ (k v : Text) (plain_k : plain k ≡ true) where
  -- a placeholder of another name stays
  replace-other :
      (n r : Text)
      → plain n ≡ true
      → text_eq n k ≡ false
      → literal_from (placeholder k) v 0 (123 ∷ 123 ∷ (n ++ 125 ∷ 125 ∷ r))
        ≡ 123 ∷ 123 ∷ (n ++ 125 ∷ 125 ∷ literal_from (placeholder k) v 0 r)
  unfolding literal_from starts_with
  replace-other n r hn e =
      rw
        (
          starts-name n k r hn plain_k,
          e,
          second-brace n (k ++ 125 ∷ 125 ∷ []) (125 ∷ r) hn,
          replace-unopened (123 ∷ k ++ 125 ∷ 125 ∷ []) v n (125 ∷ 125 ∷ r) (plain-unopened n hn),
        )
        refl

  -- a placeholder of this name becomes the parameter's text
  replace-same :
      (n r : Text)
      → plain n ≡ true
      → text_eq n k ≡ true
      → literal_from (placeholder k) v 0 (123 ∷ 123 ∷ (n ++ 125 ∷ 125 ∷ r))
        ≡ v ++ literal_from (placeholder k) v 0 r
  unfolding literal_from starts_with
  replace-same n r hn e =
      rw (starts-name n k r hn plain_k, e, skip-braced n k e)
        (ap (λ x. v ++ x) (replace-passed (placeholder k) v n r))

  abbrev one : List (Text × Text)
  one = (k, v) ∷ []

  replace-segment :
      (x : Segment) (r : Text)
      → sound_segment x ≡ true
      → literal_from (placeholder k) v 0 (print_segment x ++ r)
        ≡ print_segment (fill_segment one x) ++ literal_from (placeholder k) v 0 r
  unfolding param
  replace-segment (Segment.literal s) r h = replace-unopened _ v s r h
  replace-segment (Segment.hole n) r h = elim (Bool-cases (text_eq n k)) [
    | inl e ↦ rw (append_assoc n (125 ∷ 125 ∷ []) r, fill_segment, param, e) (replace-same n r h e)
    | inr e ↦
        rw (append_assoc n (125 ∷ 125 ∷ []) r, fill_segment, param, e)
          (replace-other n r h e
            ∙ ap (λ x. 123 ∷ 123 ∷ x) (sym (append_assoc n (125 ∷ 125 ∷ []) _)))
  ]

  replace-print :
      (xs : Template)
      → sound xs ≡ true
      → literal_from (placeholder k) v 0 (print xs) ≡ print (fill one xs)
  unfolding sound print fill literal_from
  replace-print [] h = refl
  replace-print (x ∷ xs) h =
      replace-segment x (print xs) (ground arith)
      ∙ ap (λ s. print_segment (fill_segment one x) ++ s) (replace-print xs (ground arith))

fill_segment_sound :
    (k v : Text) (x : Segment)
    → unopened v ≡ true
    → sound_segment x ≡ true
    → sound_segment (fill_segment ((k, v) ∷ []) x) ≡ true
unfolding param
fill_segment_sound k v (Segment.literal s) hv h = h
fill_segment_sound k v (Segment.hole n) hv h = ground arith

fill-sound :
    (k v : Text) (xs : Template)
    → unopened v ≡ true
    → sound xs ≡ true
    → sound (fill ((k, v) ∷ []) xs) ≡ true
unfolding sound fill
fill-sound k v [] hv h = refl
fill-sound k v (x ∷ xs) hv h = ground (arith, fill_segment_sound k v x, fill-sound k v xs)

-- one parameter after the other, or all at once
fill_segment-cons :
    (k v : Text) (params : List (Text × Text)) (x : Segment)
    → fill_segment params (fill_segment ((k, v) ∷ []) x) ≡ fill_segment ((k, v) ∷ params) x
unfolding param
fill_segment-cons k v params (Segment.literal s) = refl
fill_segment-cons k v params (Segment.hole n) = ground arith

fill-cons :
    (k v : Text) (params : List (Text × Text)) (xs : Template)
    → fill params (fill ((k, v) ∷ []) xs) ≡ fill ((k, v) ∷ params) xs
unfolding fill
fill-cons k v params [] = refl
fill-cons k v params (x ∷ xs) = cc (fill_segment-cons k v params x, fill-cons k v params xs)

fill-none : (xs : Template) → fill [] xs ≡ xs
unfolding fill param
fill-none [] = refl
fill-none (Segment.literal s ∷ xs) = ap (λ ys. Segment.literal s ∷ ys) (fill-none xs)
fill-none (Segment.hole n ∷ xs) = ap (λ ys. Segment.hole n ∷ ys) (fill-none xs)

harmless-unopened : (v : Text) → harmless v ≡ true → unopened v ≡ true
unfolding harmless unopened
harmless-unopened [] h = refl
harmless-unopened (c ∷ v) h = ground (arith, harmless-unopened v)

pub substitute-print :
    (params : List (Text × Text)) (xs : Template)
    → sound_params params ≡ true
    → sound xs ≡ true
    → substitute params (print xs) ≡ print (fill params xs)
unfolding substitute sound_params
substitute-print [] xs hp h = ap print (sym (fill-none xs))
substitute-print ((k, v) ∷ params) xs hp h =
    ap (substitute params) (
      replace-literal (placeholder k) v 0 [] (print xs) (ground arith)
      ∙ replace-print k v (ground arith) xs h)
    ∙ substitute-print params (fill ((k, v) ∷ []) xs) (ground arith)
        (fill-sound k v xs (harmless-unopened v (ground arith)) h)
    ∙ ap print (fill-cons k v params xs)

unopened-append : (s t : Text) → unopened (s ++ t) ≡ (unopened s && unopened t)
unfolding unopened
unopened-append [] t = refl
unopened-append (c ∷ s) t = ground (arith, unopened-append s t)

param-unopened :
    (params : List (Text × Text)) (n v : Text)
    → sound_params params ≡ true
    → param params n ≡ some v
    → unopened v ≡ true
unfolding sound_params param
param-unopened [] n v hp h = cc
param-unopened ((k, w) ∷ params) n v hp h =
    ground (arith, param-unopened params n v, harmless-unopened w)

hole-unopened :
    (params : List (Text × Text)) (n : Text)
    → sound_params params ≡ true
    → is_some (param params n) ≡ true
    → unopened (print_segment (fill_segment params (Segment.hole n))) ≡ true
hole-unopened params n hp h = elim (Option-cases (param params n)) [
  | inl e ↦ ground (arith, e, h)
  | inr (v, e) ↦ rw (fill_segment, e) (param-unopened params n v hp e)
]

-- with a parameter for every placeholder no opening brace is left
pub fill-unopened :
    (params : List (Text × Text)) (xs : Template)
    → sound_params params ≡ true
    → sound xs ≡ true
    → ((n : Text) → mentions xs n ≡ true → is_some (param params n) ≡ true)
    → unopened (print (fill params xs)) ≡ true
unfolding print fill sound mentions unopened
fill-unopened params [] hp h g = refl
fill-unopened params (Segment.literal s ∷ xs) hp h g =
    unopened-append s (print (fill params xs))
    ∙ ground (arith, fill-unopened params xs hp (ground arith) g)
fill-unopened params (Segment.hole n ∷ xs) hp h g =
    unopened-append (print_segment (fill_segment params (Segment.hole n))) (print (fill params xs))
    ∙ ground (
      arith,
      hole-unopened params n hp (g n (grind text_tests)),
      fill-unopened params xs hp (ground arith) (λ m i. g m (ground arith)),
    )
