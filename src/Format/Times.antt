-- ===== src/Format/Times.antt =====
-- The times that frontend/src/pages/Node/Node.tsx shows. `now` is `Date.now()`, in milliseconds, and
-- the other times are in seconds.
use lokinode.Common.{
  Bool, List, Text, [], codes, digits, false, if◌then◌else◌, join, leb, ltb, map, negsuc,
  pad_start_2, pos, true, ℕ, ℤ, ◌%◌, ◌&&◌, ◌-◌, ◌/◌, ◌==◌, ◌∷◌,
}

-- `Math.floor(Date.now() / 1000) - s`
unfoldable pub seconds_since : ℕ → ℕ → ℤ
seconds_since now s = let t = now / 1000 in if leb s t then pos (t - s) else negsuc (s - t - 1)

-- the key of the translation and its parameter; `no_time` is the empty text
pub data Ago : Type 0 where
  no_time : Ago
  seconds_ago : ℤ → Ago
  minutes_ago hours_ago days_ago months_ago years_ago : ℕ → Ago

unfoldable pub ago : ℤ → Ago
ago (negsuc d) = seconds_ago (negsuc d)
ago (pos d) =
    if ltb d 60
    then seconds_ago (pos d)
    else if ltb d 3600
    then minutes_ago (d / 60)
    else if ltb d 86400
    then hours_ago (d / 3600)
    else if ltb d 2592000
    then days_ago (d / 86400)
    else if ltb d 31536000
    then months_ago (d / 2592000)
    else years_ago (d / 31536000)

-- `relativeTime`
unfoldable pub relative_time : ℕ → ℕ → Ago
unfolding ago seconds_since
relative_time now s = if s == 0 then no_time else ago (seconds_since now s)

-- the row of the last block: `secsAgo < 30` and `secsAgo > 15 * 60`
abbrev pub is_recent_block : ℤ → Bool
is_recent_block (pos d) = ltb d 30
is_recent_block (negsuc d) = true

abbrev pub is_stale_block : ℤ → Bool
is_stale_block (pos d) = ltb 900 d
is_stale_block (negsuc d) = false

-- `formatUptime`, from a start that has passed
unfoldable pub uptime_fields : ℕ → List ℕ
uptime_fields secs = secs / 3600 ∷ secs % 3600 / 60 ∷ secs % 60 ∷ []

unfoldable pub format_uptime : ℕ → ℕ → Text
unfolding uptime_fields digits pad_start_2 join
format_uptime now start =
    join (codes ":") (map (λ v. pad_start_2 (digits v)) (uptime_fields (now / 1000 - start)))

-- the two references that each render of the page writes while it counts how long no block came
pub record SyncWatch : Type 0 where
  pub syncing_since : ℕ
  pub sync_height : ℕ

-- `if (syncing) { … } else { … }`
unfoldable pub watch_sync : ℕ → Bool → ℕ → SyncWatch → SyncWatch
watch_sync now syncing height w =
    let since = if w.syncing_since == 0 then now else w.syncing_since in
    if syncing
    then record {
      syncing_since = if ltb w.sync_height height then now else since;
      sync_height = if ltb w.sync_height height then height else w.sync_height;
    }
    else record { syncing_since = 0; sync_height = 0 }

abbrev pub sync_slow : ℕ → SyncWatch → Bool
sync_slow now w = ltb 0 w.syncing_since && ltb 45000 (now - w.syncing_since)
