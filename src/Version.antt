-- ===== src/Version.antt =====
-- frontend/src/lib/version.ts: is a release newer than the running version?
-- `Number` of the JavaScript runtime is a parameter: of a part of a version, which holds no `-`, it
-- gives NaN, a natural number or Infinity.
pub mod Order
mod Tests
use lokinode.Common.{
  Bool, List, Option, Text, [], any, false, get_or, if◌then◌else◌, is_empty, is_some, join, ltb,
  map, none, some, split, suc, true, zero, ℕ, ◌&&◌, ◌==◌, ◌||◌, ◌∷◌,
}

pub data Num : Type 0 where
  nan : Num
  num : ℕ → Num
  infinity : Num

abbrev pub is_nan : Num → Bool
is_nan nan = true
is_nan _ = false

-- `a < b`; a comparison with NaN is false
abbrev pub num_lt : Num → Num → Bool
num_lt (num a) (num b) = ltb a b
num_lt (num a) infinity = true
num_lt _ _ = false

-- `v.replace(/^v/, '')`
abbrev pub strip_v : Text → Text
strip_v [] = []
strip_v (c ∷ s) = if c == b'v' then s else c ∷ s

-- `s || null`
abbrev pub or_null : Text → Option Text
or_null [] = none
or_null (c ∷ s) = some (c ∷ s)

pub record Parsed : Type 0 where
  pub nums : List Num
  pub prerelease : Option Text

-- `!s` of an optional text
abbrev pub is_missing : Option Text → Bool
is_missing none = true
is_missing (some s) = is_empty s

-- the rounds of the loop `for (let i = 0; i < 3; i++)` that are left, from round `i`; `decided` is
-- what the loop returns, none when it falls through
unfoldable pub compare_from : ℕ → ℕ → List Num → List Num → Option Bool
compare_from zero i l c = none
compare_from (suc rounds) i l c =
    let li = get_or l i (num 0) in
    let ci = get_or c i (num 0) in
    let rest = compare_from rounds (suc i) l c in
    if num_lt ci li then some true else if num_lt li ci then some false else rest

-- the lines after the loop
abbrev pub tie_break : Parsed → Parsed → Bool
tie_break l c = is_some c.prerelease && (if is_some l.prerelease then false else true)

abbrev pub decide : Option Bool → Bool → Bool
decide none tie = tie
decide (some b) tie = b

unfoldable pub newer_parsed : Parsed → Parsed → Bool
unfolding compare_from
newer_parsed l c =
    if any is_nan l.nums || any is_nan c.nums
    then false
    else decide (compare_from 3 0 l.nums c.nums) (tie_break l c)

module _ (number : Text → Num) where
  unfoldable pub parse : Text → Parsed
  unfolding split join
  parse v =
      let (core, rest) = split b'-' (strip_v v) in
      let (first, more) = split b'.' core in
      record { nums = map number (first ∷ more); prerelease = or_null (join (b'-' ∷ []) rest) }

  unfoldable pub is_newer_version : Option Text → Option Text → Bool
  unfolding parse newer_parsed
  is_newer_version none current = false
  is_newer_version (some latest) none = false
  is_newer_version (some latest) (some current) =
      if is_empty latest || is_empty current
      then false
      else newer_parsed (parse latest) (parse current)
