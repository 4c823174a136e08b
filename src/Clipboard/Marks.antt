-- ===== src/Clipboard/Marks.antt =====
-- How long the mark of a copied text stays.
use lokinode.Common.{
  All, Bool-cases, List, String, [], arith, false, inl, inr, leb, refl, sym, true, ℕ, ◌++◌, ◌+◌,
  ◌∷◌, ◌≡◌, ◌≢◌, ◌≤◌,
}
use mathlib.Core.Path.{subst}
use lokinode.Clipboard.{Copier, initial_copier, mark, fire, timer_fires, write_text}

-- A button on which a text was copied for the last time at `last`, after its mark was set at the times of
-- the list, the latest first.
pub data Reach (lasting : ℕ) : ℕ → Copier → Type 0 where
  fresh : (now : ℕ) → Reach lasting now initial_copier
  clicked :
      {last : ℕ} {c : Copier} (text : String)
      → Reach lasting last c
      → Reach lasting last (write_text text c)
  marked :
      {last : ℕ} {c : Copier} (now : ℕ)
      → last ≤ now
      → Reach lasting last c
      → Reach lasting now (mark lasting now c)
  elapsed :
      {last : ℕ} {c : Copier} (now : ℕ)
      → Reach lasting last c
      → Reach lasting last (timer_fires now c)

-- the timers that are left at a time, when all that are due have fired
unfoldable pub settled : ℕ → List ℕ → Copier → Copier
unfolding timer_fires
settled now [] c = c
settled now (t ∷ ts) c = settled now ts (timer_fires now c)

record Inv (lasting last : ℕ) (c : Copier) : Type 0 where
  timed : c.timers ≡ [] → c.copied ≡ false
  soon : All (λ t. t ≤ last + lasting) c.timers

All-later : (ts : List ℕ) (a b : ℕ) → a ≤ b → All (λ t. t ≤ a) ts → All (λ t. t ≤ b) ts
All-later [] a b le h = tt
All-later (t ∷ ts) a b le h = (omega (arith, h.0), All-later ts a b le h.1)

All-snoc : (ts : List ℕ) (a : ℕ) → All (λ t. t ≤ a) ts → All (λ t. t ≤ a) (ts ++ a ∷ [])
All-snoc [] a h = (omega arith, tt)
All-snoc (t ∷ ts) a h = (h.0, All-snoc ts a h.1)

snoc_ne : (ts : List ℕ) (a : ℕ) → (ts ++ a ∷ []) ≢ []
snoc_ne [] a e = cc
snoc_ne (t ∷ ts) a e = cc

fire-Inv :
    (lasting last now : ℕ) (ts : List ℕ) (c : Copier)
    → c.timers ≡ ts
    → Inv lasting last c
    → Inv lasting last (fire now ts c)
unfolding fire
fire-Inv lasting last now [] c e i = i
fire-Inv lasting last now (t ∷ ts) c e i = elim (Bool-cases (leb t now)) [
  | inl d ↦
      let s : All (λ t. t ≤ last + lasting) (t ∷ ts) =
        subst (λ z. All (λ t. t ≤ last + lasting) z) e i.soon in
      rw d (record { timed = λ e. refl; soon = s.1 })
  | inr d ↦ rw d i
]

Reach-Inv : {lasting last : ℕ} {c : Copier} → Reach lasting last c → Inv lasting last c
unfolding mark timer_fires
Reach-Inv (fresh now) = record { timed = λ e. refl; soon = tt }
Reach-Inv (clicked text r) = let i = Reach-Inv r in record { timed = i.timed; soon = i.soon }
Reach-Inv {lasting} (marked {last} {c} now le r) = record {
  timed = λ e. absurd (snoc_ne c.timers (now + lasting) e);
  soon =
      All-snoc c.timers (now + lasting)
        (All-later c.timers (last + lasting) (now + lasting) (omega arith) (Reach-Inv r).soon);
}
Reach-Inv (elapsed {last} {c} now r) = fire-Inv _ last now c.timers c refl (Reach-Inv r)

settled_ends :
    (later : ℕ) (ts : List ℕ) (c : Copier)
    → c.timers ≡ ts
    → (ts ≡ [] → c.copied ≡ false)
    → All (λ t. t ≤ later) ts
    → (settled later ts c).copied ≡ false
unfolding settled timer_fires fire
settled_ends later [] c e n h = n refl
settled_ends later (t ∷ ts) c e n h =
    let d : leb t later ≡ true = ground (arith, h.0) in
    subst (λ z. (settled later ts (fire later z c)).copied ≡ false) (sym e)
      (rw d (settled_ends later ts (record c { copied = false; timers = ts }) refl (λ e. refl) h.1))

-- Whatever is copied and whenever timers fire, the mark that a text was copied is gone when its timers
-- have fired that are due as long after the last copy as the mark lasts.
pub mark_ends :
    (lasting last later : ℕ) (c : Copier)
    → Reach lasting last c
    → last + lasting ≤ later
    → (settled later c.timers c).copied ≡ false
mark_ends lasting last later c r le =
    let i = Reach-Inv r in
    settled_ends later c.timers c refl i.timed (All-later c.timers (last + lasting) later le i.soon)
