-- ===== src/Version/Order.antt =====
-- `isNewerVersion` as an order on versions.
use lokinode.Common.{
  Bool, Bool-cases, List, Option, Text, [], any, arith, false, get_or, if◌then◌else◌, inl, inr,
  is_empty, none, refl, some, sym, true, ℕ, ◌↔◌, ◌∙◌, ◌∷◌, ◌≡◌, ◌≢◌, ◌⊎◌,
}
use lokinode.Version.{
  Num, nan, num, infinity, is_nan, num_lt, Parsed, newer_parsed, parse, is_newer_version, tie_break,
  decide,
}

-- the number that the loop compares in a round
abbrev pub part : Parsed → ℕ → Num
part p i = get_or p.nums i (num 0)

abbrev pub IsReleaseOf : Parsed → Parsed → Type 0
IsReleaseOf l c = (l.prerelease ≡ none) × (c.prerelease ≢ none)

-- `l` is newer than `c`, by the first of the three numbers that differs, or by being the release of
-- the prerelease `c`.
pub data Newer (l c : Parsed) : Type 0 where
  by_major : num_lt (part c 0) (part l 0) ≡ true → Newer l c
  by_minor : part c 0 ≡ part l 0 → num_lt (part c 1) (part l 1) ≡ true → Newer l c
  by_patch :
      part c 0 ≡ part l 0 → part c 1 ≡ part l 1 → num_lt (part c 2) (part l 2) ≡ true → Newer l c
  by_release :
      part c 0 ≡ part l 0 → part c 1 ≡ part l 1 → part c 2 ≡ part l 2 → IsReleaseOf l c → Newer l c

abbrev pub IsNumeric : Parsed → Type 0
IsNumeric p = any is_nan p.nums ≡ false

get_or-ne-nan :
    (xs : List Num) (i : ℕ) → any is_nan xs ≡ false → is_nan (get_or xs i (num 0)) ≡ false
get_or-ne-nan [] i h = refl
get_or-ne-nan (x ∷ xs) ℕ.zero h = ground arith
get_or-ne-nan (x ∷ xs) (ℕ.suc i) h = get_or-ne-nan xs i (ground arith)

num_lt_asymm : (a b : Num) → num_lt a b ≡ true → num_lt b a ≡ false
num_lt_asymm a b h = ground arith

num_lt_total :
    (a b : Num)
    → is_nan a ≡ false
    → is_nan b ≡ false
    → num_lt a b ≡ false
    → num_lt b a ≡ false
    → a ≡ b
num_lt_total a b h k p q = ground arith

num_lt_irrefl : (a : Num) → num_lt a a ≡ false
num_lt_irrefl a = ground arith

-- one round of the loop, whatever the later rounds give
round_iff :
    (li ci : Num) (rest : Option Bool) (tie : Bool)
    → is_nan li ≡ false
    → is_nan ci ≡ false
    → (decide (if num_lt ci li then some true else if num_lt li ci then some false else rest) tie
        ≡ true)
      ↔ ((num_lt ci li ≡ true) ⊎ ((ci ≡ li) × (decide rest tie ≡ true)))
round_iff (num a) (num b) rest tie h k = ground arith
round_iff (num a) infinity rest tie h k = ground arith
round_iff infinity (num b) rest tie h k = ground arith
round_iff infinity infinity rest tie h k = ground arith
round_iff nan _ rest tie h k = cc
round_iff _ nan rest tie h k = cc

tie_break_iff : (l c : Parsed) → (tie_break l c ≡ true) ↔ IsReleaseOf l c
tie_break_iff l c = ground arith

module _ (l c : Parsed) (hl : IsNumeric l) (hc : IsNumeric c) where
  at_round :
      (i : ℕ) (rest : Option Bool)
      → (decide
            (if num_lt (part c i) (part l i)
              then some true
              else if num_lt (part l i) (part c i)
              then some false
              else rest)
            (tie_break l c)
          ≡ true)
        ↔ ((num_lt (part c i) (part l i) ≡ true)
            ⊎ ((part c i ≡ part l i) × (decide rest (tie_break l c) ≡ true)))
  at_round i rest =
      round_iff (part l i) (part c i) rest (tie_break l c) (get_or-ne-nan l.nums i hl)
        (get_or-ne-nan c.nums i hc)

  newer_parsed-Newer : newer_parsed l c ≡ true → Newer l c
  unfolding newer_parsed
  newer_parsed-Newer h = elim ((at_round 0 _).0 (rw (hl, hc) at h)) [
    | inl p ↦ by_major p
    | inr (e, more) ↦ elim ((at_round 1 _).0 more) [
      | inl p ↦ by_minor e p
      | inr (f, more) ↦ elim ((at_round 2 _).0 more) [
        | inl p ↦ by_patch e f p
        | inr (g, tie) ↦ by_release e f g ((tie_break_iff l c).0 tie)
      ]
    ]
  ]

  Newer-newer_parsed : Newer l c → newer_parsed l c ≡ true
  unfolding newer_parsed
  Newer-newer_parsed (by_major p) = rw (hl, hc) ((at_round 0 _).1 (inl p))
  Newer-newer_parsed (by_minor e p) =
      rw (hl, hc) ((at_round 0 _).1 (inr (e, (at_round 1 _).1 (inl p))))
  Newer-newer_parsed (by_patch e f p) =
      rw (hl, hc) ((at_round 0 _).1 (inr (e, (at_round 1 _).1 (inr (f, (at_round 2 _).1 (inl p))))))
  Newer-newer_parsed (by_release e f g t) =
      rw (hl, hc)
        ((at_round 0 _).1 (
          inr (e, (at_round 1 _).1 (inr (f, (at_round 2 _).1 (inr (g, (tie_break_iff l c).1 t)))))))

module _ (number : Text → Num) where
  -- a version that `isNewerVersion` reads: not empty, each part between dots a number
  abbrev pub IsComparable : Text → Type 0
  IsComparable v = (is_empty v ≡ false) × IsNumeric (parse number v)

  readable :
      (l c : Text)
      → is_newer_version number (some l) (some c) ≡ true
      → IsComparable l × IsComparable c
  unfolding is_newer_version
  readable l c h = ground arith

  newer_when_readable :
      (l c : Text)
      → IsComparable l × IsComparable c
      → is_newer_version number (some l) (some c) ≡ newer_parsed (parse number l) (parse number c)
  unfolding is_newer_version
  newer_when_readable l c h = ground arith

  -- `isNewerVersion` is true exactly when both versions can be read and the first is newer: greater
  -- in the first of the three numbers that differ, or the release of the second, a prerelease.
  pub is_newer_version_iff :
      (l c : Text)
      → (is_newer_version number (some l) (some c) ≡ true)
        ↔ (IsComparable l × IsComparable c × Newer (parse number l) (parse number c))
  is_newer_version_iff l c = (
    λ h.
        let (hl, hc) = readable l c h in
        (
          hl,
          hc,
          newer_parsed-Newer (parse number l) (parse number c) hl.1 hc.1
              (sym (newer_when_readable l c (hl, hc)) ∙ h),
        ),
    λ (hl, hc, n).
        newer_when_readable l c (hl, hc)
        ∙ Newer-newer_parsed (parse number l) (parse number c) hl.1 hc.1 n,
  )

num_lt_trans : (a b c : Num) → num_lt a b ≡ true → num_lt b c ≡ true → num_lt a c ≡ true
num_lt_trans (num a) (num b) (num c) h k = ground arith
num_lt_trans a b c h k = ground arith

Newer-trans : (a b c : Parsed) → Newer a b → Newer b c → Newer a c
Newer-trans a b c (by_major p) (by_major q) =
    by_major (num_lt_trans (part c 0) (part b 0) (part a 0) q p)
Newer-trans a b c (by_major p) (by_minor e q) = by_major (cc)
Newer-trans a b c (by_major p) (by_patch e f q) = by_major (cc)
Newer-trans a b c (by_major p) (by_release e f g t) = by_major (cc)
Newer-trans a b c (by_minor d p) (by_major q) = by_major (cc)
Newer-trans a b c (by_minor d p) (by_minor e q) =
    by_minor (cc) (num_lt_trans (part c 1) (part b 1) (part a 1) q p)
Newer-trans a b c (by_minor d p) (by_patch e f q) = by_minor (cc) (cc)
Newer-trans a b c (by_minor d p) (by_release e f g t) = by_minor (cc) (cc)
Newer-trans a b c (by_patch d d' p) (by_major q) = by_major (cc)
Newer-trans a b c (by_patch d d' p) (by_minor e q) = by_minor (cc) (cc)
Newer-trans a b c (by_patch d d' p) (by_patch e f q) =
    by_patch (cc) (cc) (num_lt_trans (part c 2) (part b 2) (part a 2) q p)
Newer-trans a b c (by_patch d d' p) (by_release e f g t) = by_patch (cc) (cc) (cc)
Newer-trans a b c (by_release d d' d'' u) (by_major q) = by_major (cc)
Newer-trans a b c (by_release d d' d'' u) (by_minor e q) = by_minor (cc) (cc)
Newer-trans a b c (by_release d d' d'' u) (by_patch e f q) = by_patch (cc) (cc) (cc)
Newer-trans a b c (by_release d d' d'' u) (by_release e f g t) = absurd (u.1 t.0)

Newer-irrefl : (a : Parsed) → ¬ Newer a a
Newer-irrefl a (by_major p) = cc (num_lt_irrefl (part a 0))
Newer-irrefl a (by_minor e p) = cc (num_lt_irrefl (part a 1))
Newer-irrefl a (by_patch e f p) = cc (num_lt_irrefl (part a 2))
Newer-irrefl a (by_release e f g t) = t.1 t.0

module _ (number : Text → Num) where
  -- Newer than a newer version is newer.
  pub is_newer_version_trans :
      (a b c : Text)
      → is_newer_version number (some a) (some b) ≡ true
      → is_newer_version number (some b) (some c) ≡ true
      → is_newer_version number (some a) (some c) ≡ true
  is_newer_version_trans a b c h k =
      let (ha, hb, n) = (is_newer_version_iff number a b).0 h in
      let (hb', hc, m) = (is_newer_version_iff number b c).0 k in
      (is_newer_version_iff number a c).1
        (ha, hc, Newer-trans (parse number a) (parse number b) (parse number c) n m)

  not_newer_self : (a : Text) → is_newer_version number (some a) (some a) ≡ false
  not_newer_self a = elim (Bool-cases (is_newer_version number (some a) (some a))) [
    | inl h ↦ absurd (Newer-irrefl _ ((is_newer_version_iff number a a).0 h).2)
    | inr h ↦ h
  ]

  -- Of two versions at most one is newer than the other, so no two releases are offered as updates
  -- of each other, and a version never as an update of itself.
  pub is_newer_version_asymm :
      (a b : Text)
      → is_newer_version number (some a) (some b) ≡ true
      → is_newer_version number (some b) (some a) ≡ false
  is_newer_version_asymm a b h = elim (Bool-cases (is_newer_version number (some b) (some a))) [
    | inl k ↦ cc (is_newer_version_trans a b a h k, not_newer_self a)
    | inr k ↦ k
  ]
