-- ===== src/Regex/Laws.antt =====
-- The matcher decides what a match is.
use lokinode.Common.{
  Bool, Bool-cases, Text, [], ap, arith, false, if◌then◌else◌, inl, inr, refl, sym, true, ℕ, ◌++◌,
  ◌↔◌, ◌∙◌, ◌∷◌, ◌≡◌,
}
use lokinode.Regex.Expr.{Regex, never, nothing, one_of, seq, either, star, nullable, after, matches}

pub data Matches : Regex → Text → Type 0 where
  m_nothing : Matches nothing []
  m_one : {p : ℕ → Bool} (c : ℕ) → p c ≡ true → Matches (one_of p) (c ∷ [])
  m_seq :
      {r s : Regex} (t u v : Text) → Matches r t → Matches s u → v ≡ t ++ u → Matches (seq r s) v
  m_left : {r s : Regex} {t : Text} → Matches r t → Matches (either r s) t
  m_right : {r s : Regex} {t : Text} → Matches s t → Matches (either r s) t
  m_done : {r : Regex} → Matches (star r) []
  m_more :
      {r : Regex} (t u v : Text)
      → Matches r t
      → Matches (star r) u
      → v ≡ t ++ u
      → Matches (star r) v

nullable-Matches : (r : Regex) → nullable r ≡ true → Matches r []
unfolding nullable
nullable-Matches never h = cc
nullable-Matches nothing h = m_nothing
nullable-Matches (one_of p) h = cc
nullable-Matches (seq r s) h =
    m_seq [] [] [] (nullable-Matches r (ground arith)) (nullable-Matches s (ground arith)) refl
nullable-Matches (either r s) h = elim (Bool-cases (nullable r)) [
  | inl e ↦ m_left (nullable-Matches r e)
  | inr e ↦ m_right (nullable-Matches s (ground arith))
]
nullable-Matches (star r) h = m_done

seq-Matches :
    {r s : Regex} (c : ℕ) (t : Text)
    → ((u : Text) → Matches (after r c) u → Matches r (c ∷ u))
    → Matches (seq (after r c) s) t
    → Matches (seq r s) (c ∷ t)
seq-Matches c t f (m_seq u v w m n e) = m_seq (c ∷ u) v (c ∷ t) (f u m) n (ap (λ x. c ∷ x) e)

star-Matches :
    {r : Regex} (c : ℕ) (t : Text)
    → ((u : Text) → Matches (after r c) u → Matches r (c ∷ u))
    → Matches (seq (after r c) (star r)) t
    → Matches (star r) (c ∷ t)
star-Matches c t f (m_seq u v w m n e) = m_more (c ∷ u) v (c ∷ t) (f u m) n (ap (λ x. c ∷ x) e)

one-Matches :
    (b : Bool) (c : ℕ) (t : Text) (p : ℕ → Bool)
    → p c ≡ b
    → Matches (if b then nothing else never) t
    → Matches (one_of p) (c ∷ t)
one-Matches true c _ p e m_nothing = m_one c e
one-Matches false c t p e m = elim m [ ]

either-Matches :
    {r s : Regex} (t : Text) {A : Type 0}
    → (Matches r t → A)
    → (Matches s t → A)
    → Matches (either r s) t
    → A
either-Matches t f g (m_left m) = f m
either-Matches t f g (m_right m) = g m

no-Matches : {A : Type 0} (t : Text) → Matches never t → A
no-Matches t m = elim m [ ]

after_seq-Matches :
    {r s : Regex} (b : Bool) (c : ℕ) (t : Text)
    → nullable r ≡ b
    → ((u : Text) → Matches (after r c) u → Matches r (c ∷ u))
    → ((u : Text) → Matches (after s c) u → Matches s (c ∷ u))
    → Matches (if b then either (seq (after r c) s) (after s c) else seq (after r c) s) t
    → Matches (seq r s) (c ∷ t)
after_seq-Matches {r} true c t e f g m =
    either-Matches t (seq-Matches c t f)
      (λ x. m_seq [] (c ∷ t) (c ∷ t) (nullable-Matches r e) (g t x) refl) m
after_seq-Matches false c t e f g m = seq-Matches c t f m

after-Matches : (r : Regex) (c : ℕ) (t : Text) → Matches (after r c) t → Matches r (c ∷ t)
unfolding after nullable
after-Matches never c t m = no-Matches t m
after-Matches nothing c t m = no-Matches t m
after-Matches (one_of p) c t m = one-Matches (p c) c t p refl m
after-Matches (seq r s) c t m =
    after_seq-Matches (nullable r) c t refl (after-Matches r c) (after-Matches s c) m
after-Matches (either r s) c t m =
    either-Matches t (λ x. m_left (after-Matches r c t x)) (λ x. m_right (after-Matches s c t x)) m
after-Matches (star r) c t m = star-Matches c t (after-Matches r c) m

matches-Matches : (r : Regex) (t : Text) → matches r t ≡ true → Matches r t
unfolding matches
matches-Matches r [] h = nullable-Matches r h
matches-Matches r (c ∷ t) h = after-Matches r c t (matches-Matches (after r c) t h)

left_nil : (t u : Text) → t ++ u ≡ [] → t ≡ []
left_nil [] u e = refl
left_nil (c ∷ t) u e = cc

right_nil : (t u : Text) → t ++ u ≡ [] → u ≡ []
right_nil [] u e = e
right_nil (c ∷ t) u e = cc

after_head :
    (r : Regex) {s : Regex} (b : Bool) (c : ℕ) (t' u t : Text)
    → nullable r ≡ b
    → t' ++ u ≡ c ∷ t
    → (t' ≡ [] → nullable r ≡ true)
    → ((w : Text) → t' ≡ c ∷ w → Matches (after r c) w)
    → (u ≡ c ∷ t → Matches (after s c) t)
    → Matches s u
    → Matches (if b then either (seq (after r c) s) (after s c) else seq (after r c) s) t
after_head r true c [] u t b e h f g n = m_right (g e)
after_head r false c [] u t b e h f g n = let k = h refl in cc
after_head r true c (d ∷ w) u t b e h f g n = m_left (m_seq w u t (f w cc) n cc)
after_head r false c (d ∷ w) u t b e h f g n = m_seq w u t (f w cc) n cc

after_star :
    (r : Regex) (c : ℕ) (t' u t : Text)
    → t' ++ u ≡ c ∷ t
    → ((w : Text) → t' ≡ c ∷ w → Matches (after r c) w)
    → (u ≡ c ∷ t → Matches (seq (after r c) (star r)) t)
    → Matches (star r) u
    → Matches (seq (after r c) (star r)) t
after_star r c [] u t e f g n = g e
after_star r c (d ∷ w) u t e f g n = m_seq w u t (f w cc) n cc

one_after : (b : Bool) (t : Text) → b ≡ true → t ≡ [] → Matches (if b then nothing else never) t
one_after true [] h e = m_nothing
one_after true (c ∷ t) h e = cc
one_after false t h e = cc

-- the other way
Matches-nullable : (r : Regex) (t : Text) → Matches r t → t ≡ [] → nullable r ≡ true
unfolding nullable
Matches-nullable _ _ m_nothing e = refl
Matches-nullable _ _ (m_one c h) e = cc
Matches-nullable (seq r s) v (m_seq t u _ m n k) e =
    let a = Matches-nullable r t m (left_nil t u (sym k ∙ e)) in
    let b = Matches-nullable s u n (right_nil t u (sym k ∙ e)) in ground arith
Matches-nullable (either r s) t (m_left m) e = let a = Matches-nullable r t m e in ground arith
Matches-nullable (either r s) t (m_right m) e = let a = Matches-nullable s t m e in ground arith
Matches-nullable _ _ m_done e = refl
Matches-nullable _ _ (m_more t u v m n k) e = refl

Matches-after : (r : Regex) (c : ℕ) (t v : Text) → Matches r v → v ≡ c ∷ t → Matches (after r c) t
unfolding after
Matches-after _ c t v m_nothing e = cc
Matches-after (one_of p) c t v (m_one d h) e =
    let a : p c ≡ true = cc in let b : t ≡ [] = cc in one_after (p c) t a b
Matches-after (seq r s) c t v (m_seq t' u _ m n k) e =
    after_head r (nullable r) c t' u t refl (sym k ∙ e) (Matches-nullable r t' m)
      (λ w x. Matches-after r c w t' m x) (Matches-after s c t u n) n
Matches-after (either r s) c t v (m_left m) e = m_left (Matches-after r c t v m e)
Matches-after (either r s) c t v (m_right m) e = m_right (Matches-after s c t v m e)
Matches-after _ c t v m_done e = cc
Matches-after (star r) c t v (m_more t' u _ m n k) e =
    after_star r c t' u t (sym k ∙ e) (λ w x. Matches-after r c w t' m x)
      (Matches-after (star r) c t u n) n

Matches-matches : (r : Regex) (t : Text) → Matches r t → matches r t ≡ true
unfolding matches
Matches-matches r [] m = Matches-nullable r [] m refl
Matches-matches r (c ∷ t) m = Matches-matches (after r c) t (Matches-after r c t (c ∷ t) m refl)

-- The matcher, which takes a text character by character through the derivatives of a regular expression,
-- accepts a text exactly if the text has the form that the expression describes.
pub matches_iff : (r : Regex) (t : Text) → (matches r t ≡ true) ↔ Matches r t
matches_iff r t = (matches-Matches r t, Matches-matches r t)
