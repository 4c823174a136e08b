-- ===== src/Format/Texts.antt =====
-- The texts of paths, hashes and words: frontend/src/lib/utils.ts, frontend/src/utils/format.ts and
-- `shortHash` of frontend/src/views/node/Transactions.tsx; and the errors of the daemon in
-- frontend/src/pages/Node/Node.tsx, whose messages are kept by their translation keys.
use lokinode.Common.{
  List, Text, [], codes, digits, drop, if◌then◌else◌, includes, is_empty, join, leb, length, lower,
  ltb, split, suc, take, zero, ℕ, ◌&&◌, ◌++◌, ◌+◌, ◌-◌, ◌==◌, ◌||◌, ◌∷◌,
}

-- ── `shortPath`: `p.replace(/\\/g, '/').split('/').filter(Boolean)`
unfoldable pub slashes : Text → Text
slashes [] = []
slashes (c ∷ s) = (if c == 92 then b'/' else c) ∷ slashes s

unfoldable pub non_empty : List Text → List Text
non_empty [] = []
non_empty (p ∷ ps) = let rest = non_empty ps in if is_empty p then rest else p ∷ rest

unfoldable pub path_parts : Text → List Text
unfolding slashes non_empty split
path_parts p = let (first, more) = split b'/' (slashes p) in non_empty (first ∷ more)

unfoldable pub short_path : Text → Text
unfolding path_parts join
short_path p =
    let parts = path_parts p in
    if leb (length parts) 2
    then p
    else codes "…/" ++ join (codes "/") (drop (length parts - 2) parts)

-- ── `shortHash`
unfoldable pub short_hash : Text → Text
short_hash hash =
    if ltb 12 (length hash) then take 6 hash ++ codes "…" ++ drop (length hash - 6) hash else hash

-- ── `formatWordsIndex`, four words to a line; `i` numbers the first of the words that are left
unfoldable pub indexed : ℕ → List Text → List Text
unfolding digits
indexed i [] = []
indexed i (w ∷ ws) = (digits (i + 1) ++ codes ". " ++ w) ∷ indexed (suc i) ws

unfoldable pub lines_from : ℕ → ℕ → List Text → Text
unfolding indexed join
lines_from zero i ws = []
lines_from (suc rounds) i [] = []
lines_from (suc rounds) i (w ∷ ws) =
    join (codes "  ") (indexed i (take 4 (w ∷ ws)))
    ++ codes "\n"
    ++ lines_from rounds (i + 4) (drop 4 (w ∷ ws))

unfoldable pub format_words_index : List Text → Text
unfolding lines_from
format_words_index ws = lines_from (length ws) 0 ws

-- ── `formatWords`
unfoldable pub format_words : List Text → Text
unfolding join
format_words ws = join (codes " ") ws

-- ── `friendlyDaemonError`
pub data Friendly : Type 0 where
  missing_files corrupt_cert connection_refused timeout : Friendly
  raw_text : Text → Friendly

unfoldable pub friendly_daemon_error : Text → Friendly
unfolding includes lower
friendly_daemon_error raw =
    let s = lower raw in
    if includes s (codes "no such file or directory") || includes s (codes "not found")
    then missing_files
    else if includes s (codes "failed to parse cert")
        || (includes s (codes "tls") && includes s (codes "cert"))
    then corrupt_cert
    else if includes s (codes "connection refused") || includes s (codes "dial tcp")
    then connection_refused
    else if includes s (codes "deadline exceeded") || includes s (codes "timeout")
    then timeout
    else raw_text raw
