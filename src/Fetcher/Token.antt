-- ===== src/Fetcher/Token.antt =====
-- `getRawToken` and the errors of frontend/src/lib/fetcher.ts.
use lokinode.Common.{
  Bool, Option, String, arith, false, if◌then◌else◌, inl, inr, none, refl, some, str_eq,
  string_tests, suc, true, zero, ℕ, ◌+◌, ◌<◌, ◌≡◌, ◌≢◌, ◌≤◌, ◌⊎◌,
}
use lokinode.Fetcher.{
  or_failed, Outcome, err, is_ok, Response, error_message, token_from, get_raw_token, settle,
  api_error,
}

-- a call of `GetAPIToken` that throws or gives no token
abbrev pub is_no_token : Option String → Bool
is_no_token none = true
is_no_token (some t) = str_eq t ""

-- the calls before `k` gave no token
pub NoToken : ℕ → ℕ → (ℕ → Option String) → Type 0
NoToken i k token_at = (j : ℕ) → i ≤ j → j < k → is_no_token (token_at j) ≡ true

pub TokenOutcome : ℕ → ℕ → (ℕ → Option String) → String × ℕ → Type 0
TokenOutcome i last token_at (t, k) =
    (i ≤ k)
    × NoToken i k token_at
    × (((k < last) × (token_at k ≡ some t) × (t ≢ "")) ⊎ ((k ≡ last) × (t ≡ "")))

at_or_after : (i j : ℕ) → i ≤ j → (j ≡ i) ⊎ (suc i ≤ j)
at_or_after i j h = ground arith

module _ (token_at : ℕ → Option String) (last : ℕ) where
  skip :
      (i : ℕ) (r : String × ℕ)
      → is_no_token (token_at i) ≡ true
      → TokenOutcome (suc i) last token_at r
      → TokenOutcome i last token_at r
  unfolding TokenOutcome NoToken
  skip i (t, k) e (a, f, c) =
      (omega arith, λ j b d. elim (at_or_after i j b) [ inl s ↦ rw s e | inr s ↦ f j s d ], c)

  got :
      (i : ℕ) (t : String)
      → i < last
      → token_at i ≡ some t
      → t ≢ ""
      → TokenOutcome i last token_at (t, i)
  unfolding TokenOutcome NoToken
  got i t l e n = (omega arith, λ j a b. absurd (omega arith), inl (l, e, n))

  text_at :
      (i : ℕ) (t : String) (b : Bool) (rest : String × ℕ)
      → str_eq t "" ≡ b
      → token_at i ≡ some t
      → i < last
      → TokenOutcome (suc i) last token_at rest
      → TokenOutcome i last token_at (if b then rest else (t, i))
  text_at i t true rest q e l h = skip i rest (rw e q) h
  text_at i t false rest q e l h = got i t l e (λ p. (grind string_tests))

  attempt :
      (i : ℕ) (o : Option String) (rest : String × ℕ)
      → token_at i ≡ o
      → i < last
      → TokenOutcome (suc i) last token_at rest
      → TokenOutcome i last token_at
          (elim o [ none ↦ rest | some t ↦ if str_eq t "" then rest else (t, i) ])
  attempt i none rest e l h = skip i rest (rw e refl) h
  attempt i (some t) rest e l h = text_at i t (str_eq t "") rest refl e l h

  token_from-TokenOutcome :
      (rounds i : ℕ)
      → i + rounds ≡ last
      → TokenOutcome i last token_at (token_from rounds i token_at)
  unfolding token_from TokenOutcome NoToken
  token_from-TokenOutcome zero i h =
      (omega arith, λ j a b. absurd (omega arith), inr (omega arith, refl))
  token_from-TokenOutcome (suc n) i h =
      attempt i (token_at i) (token_from n (suc i) token_at) refl (omega arith)
        (token_from-TokenOutcome n (suc i) (omega arith))

-- `getRawToken` gives the first token that is not empty, if one of its 20 calls of `GetAPIToken` gives
-- one, after as many waits as calls gave none; and otherwise the empty text, after 20 waits.
pub get_raw_token-TokenOutcome :
    (token_at : ℕ → Option String) → TokenOutcome 0 20 token_at (get_raw_token token_at)
unfolding get_raw_token
get_raw_token-TokenOutcome token_at = token_from-TokenOutcome token_at 20 20 0 (omega arith)

failed_or : (b : Bool) (m : String) → str_eq m "" ≡ b → (if b then "Request failed" else m) ≢ ""
failed_or true m e h = cc
failed_or false m e h = grind string_tests

or_failed_ne : (m : Option String) → or_failed m ≢ ""
or_failed_ne none h = cc
or_failed_ne (some m) h = failed_or (str_eq m "") m refl h

error_message_ne :
    (o : Option (Option String)) (t : String)
    → (elim o [ none ↦ or_failed (some t) | some m ↦ or_failed m ]) ≢ ""
error_message_ne none t h = or_failed_ne (some t) h
error_message_ne (some m) t h = or_failed_ne m h

settle_if :
    {A : Type 0} (b : Bool) (x y : Outcome (Option A)) → b ≡ false → (if b then x else y) ≡ y
settle_if true x y h = cc
settle_if false x y h = refl

-- A response whose status is no success becomes an error with that status and a message that is not
-- empty.
pub settle_failure :
    {A : Type 0} (res : Response A)
    → is_ok res.status ≡ false
    → (m : String) × (settle res ≡ err (api_error res.status m)) × (m ≢ "")
unfolding settle error_message
settle_failure res h = (
  error_message res,
  settle_if (is_ok res.status) _ _ h,
  error_message_ne res.message res.status_text,
)
