-- ===== src/Format/Ages.antt =====
-- What the ages and the durations of frontend/src/pages/Node/Node.tsx say of the time.
use lokinode.Common.{
  Bool, Bool-cases, arith, false, if◌then◌else◌, inl, inr, leb, ltb, negsuc, pos, refl, true, ℕ,
  ◌*◌, ◌+◌, ◌-◌, ◌/◌, ◌<◌, ◌==◌, ◌≡◌, ◌≤◌,
}
use lokinode.Format.Times.{
  Ago, ago, days_ago, hours_ago, minutes_ago, months_ago, no_time, relative_time, seconds_ago,
  seconds_since, years_ago,
}

-- `n` whole units of `unit` seconds, at least one and less than `bound`, have passed since `s`
abbrev pub Passed : ℕ → ℕ → ℕ → ℕ → ℕ → Type 0
Passed t s unit bound n = (1 ≤ n) × (n < bound) × (s + n * unit ≤ t) × (t < s + (n + 1) * unit)

-- what an age says of the time `s` at the time `t`
pub IsAge : ℕ → ℕ → Ago → Type 0
IsAge t s no_time = s ≡ 0
IsAge t s (seconds_ago (pos n)) = (n < 60) × (s + n ≡ t)
IsAge t s (seconds_ago (negsuc n)) = t + n + 1 ≡ s
IsAge t s (minutes_ago n) = Passed t s 60 60 n
IsAge t s (hours_ago n) = Passed t s 3600 24 n
IsAge t s (days_ago n) = Passed t s 86400 30 n
IsAge t s (months_ago n) = Passed t s 2592000 13 n
IsAge t s (years_ago n) = (1 ≤ n) × (s + n * 31536000 ≤ t) × (t < s + (n + 1) * 31536000)

if-IsAge :
    (t s : ℕ) (b : Bool) (x y : Ago)
    → (b ≡ true → IsAge t s x)
    → (b ≡ false → IsAge t s y)
    → IsAge t s (if b then x else y)
if-IsAge t s true x y h k = h refl
if-IsAge t s false x y h k = k refl

ago-IsAge : (t s : ℕ) → s ≤ t → IsAge t s (ago (pos (t - s)))
unfolding IsAge ago
ago-IsAge t s h =
    if-IsAge t s (ltb (t - s) 60) _ _ (λ a. ground arith)
      (λ a.
        if-IsAge t s (ltb (t - s) 3600) _ _ (λ b. ground arith)
          (λ b.
            if-IsAge t s (ltb (t - s) 86400) _ _ (λ c. ground arith)
              (λ c.
                if-IsAge t s (ltb (t - s) 2592000) _ _ (λ d. ground arith)
                  (λ d.
                    if-IsAge t s (ltb (t - s) 31536000) _ _ (λ e. ground arith)
                      (λ e. ground arith)))))

ages : (t s : ℕ) → IsAge t s (ago (if leb s t then pos (t - s) else negsuc (s - t - 1)))
unfolding IsAge ago
ages t s = elim (Bool-cases (leb s t)) [
  | inl h ↦ rw h (ago-IsAge t s (ground arith))
  | inr h ↦ rw h (ground arith)
]

-- The age shown for a time, of a block say, is right to the unit: it is that many seconds, below 60; or
-- that many whole minutes, below 60, hours, below 24, days, below 30, months of 30 days, at most 12, or
-- years of 365 days have passed, and not one more. A time to come gets the seconds until then with a minus.
pub relative_time-IsAge : (now s : ℕ) → IsAge (now / 1000) s (relative_time now s)
unfolding relative_time seconds_since IsAge ago
relative_time-IsAge now s =
    if-IsAge (now / 1000) s (s == 0) _ _ (λ z. ground arith) (λ z. ages (now / 1000) s)
