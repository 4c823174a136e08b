-- ===== src/Onboard/Poll.antt =====
-- `pollUntil` of frontend/src/pages/Onboard/Onboard.tsx. The clock, the answers and the cancellation are
-- functions of the round: `now_at i` is what `Date.now()` gives at the test of the round `i`, which
-- the wait of `intervalMs` at the end of each round moves on.
use lokinode.Common.{
  Bool, Bool-cases, arith, false, if◌then◌else◌, inl, inr, ltb, refl, suc, true, zero, ℕ, ◌+◌, ◌<◌,
  ◌≡◌, ◌≤◌, ◌⊎◌,
}
use lokinode.Session.{Fetched, answered, failed}

pub data Poll (A : Type 0) : Type 0 where
  found : A → Poll A
  cancelled timed_out unfinished : Poll A

pub record Rounds (A : Type 0) : Type 0 where
  pub now_at : ℕ → ℕ
  pub answer_at : ℕ → Fetched A
  pub cancelled_at : ℕ → Bool

module _ {A : Type 0} where
  -- a failed request is no answer
  abbrev pub is_match : (A → Bool) → Fetched A → Bool
  is_match predicate failed = false
  is_match predicate (answered a) = predicate a

  abbrev pub or_rest : (A → Bool) → Fetched A → Poll A → Poll A
  or_rest predicate failed rest = rest
  or_rest predicate (answered a) rest = if predicate a then found a else rest

  unfoldable pub poll_from : (A → Bool) → ℕ → Rounds A → ℕ → ℕ → Poll A
  poll_from predicate deadline r zero i = unfinished
  poll_from predicate deadline r (suc n) i =
      let rest = poll_from predicate deadline r n (suc i) in
      if ltb (r.now_at i) deadline
      then if r.cancelled_at i then cancelled else or_rest predicate (r.answer_at i) rest
      else timed_out

  -- `start` is the time at the call
  unfoldable pub poll_until : (A → Bool) → ℕ → ℕ → Rounds A → ℕ → Poll A
  unfolding poll_from
  poll_until predicate timeout start r fuel = poll_from predicate (start + timeout) r fuel 0

  module _ (predicate : A → Bool) (deadline : ℕ) (r : Rounds A) where
    -- a round after which the loop goes on
    unfoldable pub Quiet : ℕ → Type 0
    Quiet i =
        (r.now_at i < deadline)
        × (r.cancelled_at i ≡ false)
        × (is_match predicate (r.answer_at i) ≡ false)

    -- the round in which the loop ends with the result
    unfoldable pub Last : ℕ → Poll A → Type 0
    Last i (found a) =
        (r.now_at i < deadline)
        × (r.cancelled_at i ≡ false)
        × (r.answer_at i ≡ answered a)
        × (predicate a ≡ true)
    Last i cancelled = ((r.now_at i < deadline) × (r.cancelled_at i ≡ true))
    Last i timed_out = (deadline ≤ r.now_at i)
    Last i unfinished = ⊥

    unfoldable pub EndsFrom : ℕ → Poll A → Type 0
    EndsFrom i p = (k : ℕ) × (i ≤ k) × ((j : ℕ) → i ≤ j → j < k → Quiet j) × Last k p

module _ {A : Type 0} (predicate : A → Bool) (deadline : ℕ) (r : Rounds A) where
  here : (i : ℕ) (p : Poll A) → Last predicate deadline r i p → EndsFrom predicate deadline r i p
  unfolding EndsFrom
  here i p l = (i, omega arith, λ j a b. absurd (omega arith), l)

  at_or_after : (i j : ℕ) → i ≤ j → (j ≡ i) ⊎ (suc i ≤ j)
  at_or_after i j h = ground arith

  later :
      (i : ℕ) (p : Poll A)
      → Quiet predicate deadline r i
      → EndsFrom predicate deadline r (suc i) p
      → EndsFrom predicate deadline r i p
  unfolding EndsFrom
  later i p q (k, l, f, e) =
      (k, omega arith, λ j a b. elim (at_or_after i j a) [ inl c ↦ rw c q | inr c ↦ f j c b ], e)

  answer_ends :
      (i : ℕ) (rest : Poll A) (m : Fetched A)
      → r.now_at i < deadline
      → r.cancelled_at i ≡ false
      → r.answer_at i ≡ m
      → (Quiet predicate deadline r i → EndsFrom predicate deadline r (suc i) rest)
      → EndsFrom predicate deadline r i (or_rest predicate m rest)
  unfolding Quiet Last
  answer_ends i rest failed a b c f =
      let e : is_match predicate (r.answer_at i) ≡ false = cc in
      later i rest (a, b, e) (f (a, b, e))
  answer_ends i rest (answered x) a b c f = elim (Bool-cases (predicate x)) [
    | inl e ↦ rw e (here i (found x) (a, b, c, e))
    | inr e ↦
        let g : is_match predicate (r.answer_at i) ≡ false = rw c e in
        rw e (later i rest (a, b, g) (f (a, b, g)))
  ]

  ends :
      (i : ℕ) (rest : Poll A) (b c : Bool)
      → ltb (r.now_at i) deadline ≡ b
      → r.cancelled_at i ≡ c
      → (Quiet predicate deadline r i → EndsFrom predicate deadline r (suc i) rest)
      → EndsFrom predicate deadline r i
          (if b then if c then cancelled else or_rest predicate (r.answer_at i) rest else timed_out)
  unfolding Last
  ends i rest false c e g f = here i timed_out (ground arith)
  ends i rest true true e g f = here i cancelled (ground arith)
  ends i rest true false e g f = answer_ends i rest (r.answer_at i) (ground arith) g refl f

  poll_from-EndsFrom :
      (fuel i : ℕ)
      → ((j : ℕ) → r.now_at j < r.now_at (suc j))
      → 0 < fuel
      → deadline < r.now_at i + fuel
      → EndsFrom predicate deadline r i (poll_from predicate deadline r fuel i)
  unfolding poll_from Quiet
  poll_from-EndsFrom zero i t g h = absurd (omega arith)
  poll_from-EndsFrom (suc n) i t g h =
      ends i (poll_from predicate deadline r n (suc i)) (ltb (r.now_at i) deadline)
        (r.cancelled_at i) refl refl
        (λ q.
          let a = t i in let b = q.0 in poll_from-EndsFrom n (suc i) t (omega arith) (omega arith))

-- `pollUntil`, on a clock that each round moves on and that is not behind the call, ends within as many
-- rounds as the timeout has milliseconds, plus one. It goes on through the rounds before the deadline
-- whose answer failed or does not satisfy the predicate, and its result is that of the first other
-- round: the answer, if it satisfies the predicate, the cancellation, or the timeout, and that only
-- at or after the deadline.
pub poll_until_ends :
    {A : Type 0} (predicate : A → Bool) (timeout start fuel : ℕ) (r : Rounds A)
    → ((i : ℕ) → r.now_at i < r.now_at (suc i))
    → start ≤ r.now_at 0
    → timeout < fuel
    → EndsFrom predicate (start + timeout) r 0 (poll_until predicate timeout start r fuel)
unfolding poll_until
poll_until_ends predicate timeout start fuel r t h l =
    poll_from-EndsFrom predicate (start + timeout) r fuel 0 t (omega arith) (omega arith)
