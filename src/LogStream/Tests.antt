-- ===== src/LogStream/Tests.antt =====
-- The live tail at concrete lines.
use lokinode.Common.{List, Text, [], codes, length, refl, ◌∷◌, ◌≡◌, ◌≤◌}
use lokinode.LogStream.{detect_level, level_err, initial_log, max_lines}
use lokinode.LogStream.Tail.{read, latest, logged, read_keeps_latest}

critical : detect_level (codes "a [CRIT] [INF]") ≡ level_err
unfolding detect_level
critical = refl

abbrev two_lines : List Text
two_lines = codes "[INF] a" ∷ codes "  " ∷ codes " b" ∷ []

blank_is_skipped : length (read two_lines initial_log).entries ≡ 2
unfolding read
blank_is_skipped = refl

read_keeps_latest_example :
    ((read two_lines initial_log).entries ≡ latest (logged 0 two_lines))
    × (length (read two_lines initial_log).entries ≤ max_lines)
read_keeps_latest_example = read_keeps_latest two_lines
