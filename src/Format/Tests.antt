-- ===== src/Format/Tests.antt =====
-- Times and texts, and the theorems about them at those.
use lokinode.Common.{
  [], codes, digits, digits_from, includes, join, lower, pad_start_2, refl, split, starts_with, ◌/◌,
  ◌∷◌, ◌≡◌,
}
use lokinode.Format.Times.{
  format_uptime, hours_ago, relative_time, seconds_since, ago, uptime_fields,
}
use lokinode.Format.Texts.{
  short_path, format_words_index, friendly_daemon_error, connection_refused, path_parts, slashes,
  non_empty, lines_from, indexed,
}
use lokinode.Format.Ages.{IsAge, relative_time-IsAge}

two_hours : relative_time 10000000 2000 ≡ hours_ago 2
unfolding relative_time ago seconds_since
two_hours = refl

relative_time-IsAge_example : IsAge (10000000 / 1000) 2000 (relative_time 10000000 2000)
relative_time-IsAge_example = relative_time-IsAge 10000000 2000

leaf : short_path (codes "/home/me/node") ≡ codes "…/me/node"
unfolding short_path path_parts slashes non_empty split join
leaf = refl

uptime : format_uptime 3725000 0 ≡ codes "01:02:05"
unfolding format_uptime uptime_fields digits digits_from pad_start_2 join
uptime = refl

two_words : format_words_index (codes "ab" ∷ codes "cd" ∷ []) ≡ codes "1. ab  2. cd\n"
unfolding format_words_index lines_from indexed digits digits_from join
two_words = refl

refused : friendly_daemon_error (codes "Dial TCP failed") ≡ connection_refused
unfolding friendly_daemon_error includes lower starts_with
refused = refl
