-- ===== src/LogStream/Tail.antt =====
-- What the buffer of frontend/src/components/LogStream/LogStream.tsx holds.
use lokinode.Common.{
  List, Text, [], ap, arith, drop, false, inl, inr, leb, length, length-append, length-drop, refl,
  suc, trim, zero, ℕ, ◌++◌, ◌+◌, ◌-◌, ◌<◌, ◌∙◌, ◌∷◌, ◌≡◌, ◌≤◌, ◌⊎◌,
}
use mathlib.Core.List.{append-nil, append_assoc}
use lokinode.LogStream.{
  LogEntry, LogStream, push_entry, add_line, on_message, detect_level, max_lines, initial_log,
}

drop-append :
    {A : Type 0} (n : ℕ) (xs ys : List A) → n ≤ length xs → drop n (xs ++ ys) ≡ drop n xs ++ ys
drop-append zero xs ys h = refl
drop-append (suc n) [] ys h = absurd (omega arith)
drop-append (suc n) (x ∷ xs) ys h = drop-append n xs ys (omega arith)

drop-nil : {A : Type 0} (n : ℕ) → drop {A = A} n [] ≡ []
drop-nil zero = refl
drop-nil (suc n) = refl

drop-drop : {A : Type 0} (n m : ℕ) (xs : List A) → drop n (drop m xs) ≡ drop (m + n) xs
drop-drop n zero xs = let e : 0 + n ≡ n = omega arith in rw e
drop-drop n (suc m) [] = let e : suc m + n ≡ suc (m + n) = omega arith in rw e (drop-nil n)
drop-drop n (suc m) (x ∷ xs) =
    let e : suc m + n ≡ suc (m + n) = omega arith in rw e (drop-drop n m xs)

-- the last lines that the buffer has room for
unfoldable pub latest : List LogEntry → List LogEntry
latest es = drop (length es - max_lines) es

push_full :
    (p : List LogEntry) (e : LogEntry) → length p ≡ 500 → push_entry p e ≡ drop 1 p ++ e ∷ []
unfolding push_entry
push_full p e h = rw h

push_short : (p : List LogEntry) (e : LogEntry) → length p < 500 → push_entry p e ≡ p ++ e ∷ []
unfolding push_entry
push_short p e h = let b : leb 500 (length p) ≡ false = ground arith in rw b

room : (n : ℕ) → (n < 500) ⊎ (500 ≤ n)
room n = ground arith

push_latest_full :
    (es : List LogEntry) (e : LogEntry)
    → 500 ≤ length es
    → push_entry (latest es) e ≡ latest (es ++ e ∷ [])
unfolding latest
push_latest_full es e h =
    let k = length-drop (length es - 500) es in
    let a = push_full (drop (length es - 500) es) e (omega arith) in
    let l : length (es ++ e ∷ []) - 500 ≡ (length es - 500) + 1 =
      omega (arith, length-append es (e ∷ [])) in
    let d = drop-append ((length es - 500) + 1) es (e ∷ []) (omega arith) in
    let c = drop-drop 1 (length es - 500) es in rw (a, c, l, d)

push_latest_short :
    (es : List LogEntry) (e : LogEntry)
    → length es < 500
    → push_entry (latest es) e ≡ latest (es ++ e ∷ [])
unfolding latest
push_latest_short es e h =
    let z : length es - 500 ≡ 0 = omega arith in
    let y : length (es ++ e ∷ []) - 500 ≡ 0 = omega (arith, length-append es (e ∷ [])) in
    rw (z, y) (push_short es e h)

push_latest : (es : List LogEntry) (e : LogEntry) → push_entry (latest es) e ≡ latest (es ++ e ∷ [])
push_latest es e = elim (room (length es)) [
  | inl h ↦ push_latest_short es e h
  | inr h ↦ push_latest_full es e h
]

-- the entry of a line, by what `trim` leaves of it, after `n` others
unfoldable pub entry_of : Text → ℕ → List LogEntry
unfolding detect_level
entry_of [] n = []
entry_of (c ∷ t) n = record { id = suc n; text = c ∷ t; level = detect_level (c ∷ t) } ∷ []

-- the entries of the lines that are not blank, numbered from `n + 1` on
unfoldable pub logged : ℕ → List Text → List LogEntry
unfolding trim entry_of
logged n [] = []
logged n (l ∷ ls) = let e = entry_of (trim l) n in let rest = logged (n + length e) ls in e ++ rest

unfoldable pub read : List Text → LogStream → LogStream
unfolding on_message
read [] s = s
read (l ∷ ls) s = read ls (on_message l s)

add_line_lem :
    (t : Text) (s : LogStream) (es : List LogEntry)
    → s.entries ≡ latest es
    → ((add_line t s).entries ≡ latest (es ++ entry_of t s.last_id))
      × ((add_line t s).last_id ≡ s.last_id + length (entry_of t s.last_id))
unfolding add_line entry_of
add_line_lem [] s es h = (rw (append-nil es) h, omega arith)
add_line_lem (c ∷ t) s es h = (rw h (push_latest es _), omega arith)

read_lem :
    (ls : List Text) (s : LogStream) (es : List LogEntry)
    → s.entries ≡ latest es
    → (read ls s).entries ≡ latest (es ++ logged s.last_id ls)
unfolding read logged on_message
read_lem [] s es h = rw (append-nil es) h
read_lem (l ∷ ls) s es h =
    let a = add_line_lem (trim l) s es h in
    let r = read_lem ls (add_line (trim l) s) (es ++ entry_of (trim l) s.last_id) a.0 in
    r
    ∙ ap latest (
        rw a.1 (
          append_assoc es (entry_of (trim l) s.last_id)
            (logged (s.last_id + length (entry_of (trim l) s.last_id)) ls)))

latest_nil : initial_log.entries ≡ latest []
unfolding latest
latest_nil = refl

length-latest : (es : List LogEntry) → length (latest es) ≤ max_lines
unfolding latest
length-latest es = omega (arith, length-drop (length es - max_lines) es)

-- After any lines from the start, the buffer holds the entries of the last 500 lines that are not blank,
-- or of all if there are fewer, in their order, trimmed and numbered from 1 on; never more than 500.
pub read_keeps_latest :
    (ls : List Text)
    → ((read ls initial_log).entries ≡ latest (logged 0 ls))
      × (length (read ls initial_log).entries ≤ max_lines)
read_keeps_latest ls =
    let r = read_lem ls initial_log [] latest_nil in (r, rw r (length-latest (logged 0 ls)))
