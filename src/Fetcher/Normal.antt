-- ===== src/Fetcher/Normal.antt =====
-- The lists of headers of frontend/src/lib/fetcher.ts: what a name stands for after an entry more, and how
-- a list without a repeated name is copied.
use mathlib.Core.Path.{subst}
use mathlib.Core.List.{append-nil, append_assoc}
use lokinode.Common.{
  All, Bool, Bool-cases, Option, String, Text, [], ap, arith, false, if◌then◌else◌, inl, inr, lower,
  none, refl, some, sym, text_eq, text_eq→eq, text_tests, true, ◌++◌, ◌∙◌, ◌∷◌, ◌≡◌,
}
use lokinode.Fetcher.{Headers, header, joined, append_header, append_all, set_header, assign}

lower-lower : (s : Text) → lower (lower s) ≡ lower s
unfolding lower
lower-lower [] = refl
lower-lower (c ∷ s) = ground (arith, lower-lower s)

text_eq_sym : (i j : Text) → text_eq i j ≡ text_eq j i
unfolding text_eq
text_eq_sym [] [] = refl
text_eq_sym [] (d ∷ t) = refl
text_eq_sym (c ∷ s) [] = refl
text_eq_sym (c ∷ s) (d ∷ t) = ground (arith, text_eq_sym s t)

text_eq_meet : (i j k : Text) → text_eq i k ≡ true → text_eq j k ≡ true → text_eq i j ≡ true
text_eq_meet i j k h g = grind (text_tests, text_eq→eq j k g, h)

-- the header of a name after one more
abbrev pub and_also : Bool → Option String → String → Option String
and_also b o v = if b then some (joined o v) else o

header-append_header :
    (k j : Text) (v : String) (hs : Headers)
    → header k (append_header j v hs) ≡ and_also (text_eq j k) (header k hs) v
unfolding header append_header
header-append_header k j v [] = refl
header-append_header k j v ((i, w) ∷ hs) = elim (Bool-cases (text_eq i j)) [
  | inl e ↦ grind (text_tests, e)
  | inr e ↦ ground (arith, e, header-append_header k j v hs, text_eq_meet i j k)
]

-- what the entries of a list make of the header of a name
unfoldable pub collected : Text → Option String → Headers → Option String
collected k o [] = o
collected k o ((j, v) ∷ more) = collected k (and_also (text_eq (lower j) k) o v) more

pub header-append_all :
    (k : Text) (acc more : Headers)
    → header k (append_all acc more) ≡ collected k (header k acc) more
unfolding append_all collected
header-append_all k acc [] = refl
header-append_all k acc ((j, v) ∷ more) =
    header-append_all k (append_header (lower j) v acc) more
    ∙ ap (λ o. collected k o more) (header-append_header k (lower j) v acc)

-- the entries of a `Headers`: names in lower case, each once
unfoldable pub IsNormal : Headers → Type 0
unfolding header
IsNormal [] = Unit
IsNormal ((j, w) ∷ hs) = (lower j ≡ j) × (header j hs ≡ none) × IsNormal hs

append_header-IsNormal :
    (j : Text) (v : String) (hs : Headers)
    → lower j ≡ j
    → IsNormal hs
    → IsNormal (append_header j v hs)
unfolding IsNormal append_header
append_header-IsNormal j v [] l n = (l, refl, tt)
append_header-IsNormal j v ((i, w) ∷ hs) l n = elim (Bool-cases (text_eq i j)) [
  | inl e ↦ rw e n
  | inr e ↦ rw e (
    n.0,
    header-append_header i j v hs ∙ ground (arith, e, text_eq_sym i j, n.1),
    append_header-IsNormal j v hs l n.2,
  )
]

pub append_all-IsNormal : (acc more : Headers) → IsNormal acc → IsNormal (append_all acc more)
unfolding append_all
append_all-IsNormal acc [] n = n
append_all-IsNormal acc ((j, v) ∷ more) n =
    append_all-IsNormal (append_header (lower j) v acc) more
      (append_header-IsNormal (lower j) v acc (lower-lower j) n)

collected-absent :
    (k : Text) (o : Option String) (hs : Headers)
    → IsNormal hs
    → header k hs ≡ none
    → collected k o hs ≡ o
unfolding IsNormal collected header
collected-absent k o [] n h = refl
collected-absent k o ((j, w) ∷ hs) n h = elim (Bool-cases (text_eq j k)) [
  | inl e ↦ ground (arith, e, h)
  | inr e ↦ rw (n.0, e) (collected-absent k o hs n.2 (ground (arith, e, h)))
]

-- a `Headers` is read as it stands
pub collected-IsNormal : (k : Text) (hs : Headers) → IsNormal hs → collected k none hs ≡ header k hs
unfolding IsNormal collected header
collected-IsNormal k [] n = refl
collected-IsNormal k ((j, w) ∷ hs) n = elim (Bool-cases (text_eq j k)) [
  | inl e ↦
      rw (n.0, e)
        (collected-absent k (some w) hs n.2
          (subst (λ z. header z hs ≡ none) (text_eq→eq j k e) n.1))
  | inr e ↦ rw (n.0, e) (collected-IsNormal k hs n.2)
]

pub set_header-append :
    (k : Text) (v : String) (hs : Headers)
    → header k hs ≡ none
    → set_header k v hs ≡ hs ++ (k, v) ∷ []
unfolding header set_header
set_header-append k v [] h = refl
set_header-append k v ((j, w) ∷ hs) h = ground (arith, set_header-append k v hs)

header-snoc :
    (i j : Text) (w : String) (acc : Headers)
    → header i acc ≡ none
    → text_eq j i ≡ false
    → header i (acc ++ (j, w) ∷ []) ≡ none
unfolding header
header-snoc i j w [] h e = ground (arith, e)
header-snoc i j w ((k, v) ∷ acc) h e = ground (arith, header-snoc i j w acc)

-- no name of a list is one of `acc`
abbrev pub Apart : Headers → Headers → Type 0
Apart acc hs = All (λ e. header e.0 acc ≡ none) hs

snoc-Apart :
    (j : Text) (w : String) (acc hs : Headers)
    → header j hs ≡ none
    → Apart acc hs
    → Apart (acc ++ (j, w) ∷ []) hs
unfolding header
snoc-Apart j w acc [] h a = tt
snoc-Apart j w acc ((i, v) ∷ hs) h a = (
  header-snoc i j w acc a.0 (ground (arith, text_eq_sym i j)),
  snoc-Apart j w acc hs (ground arith) a.1,
)

pub nil-Apart : (hs : Headers) → Apart [] hs
unfolding header
nil-Apart [] = tt
nil-Apart (e ∷ hs) = (refl, nil-Apart hs)

pub assign-Apart : (acc hs : Headers) → IsNormal hs → Apart acc hs → assign acc hs ≡ acc ++ hs
unfolding IsNormal assign
assign-Apart acc [] n a = sym (append-nil acc)
assign-Apart acc ((j, w) ∷ hs) n a =
    ap (λ z. assign z hs) (set_header-append j w acc a.0)
    ∙ assign-Apart (acc ++ (j, w) ∷ []) hs n.2 (snoc-Apart j w acc hs n.1 a.1)
    ∙ append_assoc acc ((j, w) ∷ []) hs
