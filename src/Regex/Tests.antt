-- ===== src/Regex/Tests.antt =====
-- The matcher at texts.
use lokinode.Common.{codes, false, refl, true, ◌≡◌}
use lokinode.Regex.Expr.{matches, plus, digit, char, seq, optional}

two_digits : matches (seq (plus digit) (optional (char b':'))) (codes "10:") ≡ true
unfolding matches
two_digits = refl

no_digit : matches (plus digit) (codes "x") ≡ false
unfolding matches
no_digit = refl
