-- ===== src/Clipboard/Tests.antt =====
-- A mark that is set twice, and a row of the credentials.
use lokinode.Common.{[], arith, false, refl, true, ◌∷◌, ◌≡◌}
use lokinode.Clipboard.{Copier, mark, timer_fires}
use lokinode.Clipboard.Marks.{Reach, fresh, marked, clicked, settled, mark_ends}

abbrev copied_twice : Copier
copied_twice = record { copied = true; timers = 2500 ∷ 3500 ∷ []; written = "b" ∷ "a" ∷ [] }

twice_reached : Reach 1500 2000 copied_twice
unfolding mark
twice_reached =
    marked 2000 (omega arith) (clicked "b" (marked 1000 (omega arith) (clicked "a" (fresh 0))))

-- the first timer takes the mark of the second copy away
first_timer : (timer_fires 2500 copied_twice).copied ≡ false
unfolding timer_fires
first_timer = refl

twice_ends : (settled 3500 copied_twice.timers copied_twice).copied ≡ false
twice_ends = mark_ends 1500 2000 3500 copied_twice twice_reached (omega arith)
