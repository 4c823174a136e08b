-- ===== src/Confirm/Tests.antt =====
-- A button that is clicked twice, and the theorem about it.
use lokinode.Common.{arith, false, refl, ◌*◌, ◌+◌, ◌≡◌, ◌≤◌}
use lokinode.Confirm.{timer_fires, Button, clicked, fresh, handle_click, initial_button}
use lokinode.Confirm.Clicks.{confirmation_takes_two_clicks, flag}

abbrev once : Button
once = handle_click 10 false false initial_button

abbrev twice : Button
twice = handle_click 500 false false once

one_confirmation : twice.confirmed ≡ 1
unfolding handle_click
one_confirmation = refl

confirmation_takes_two_clicks_example :
    (2 * twice.confirmed + flag twice.armed ≤ 2) × ((timer_fires 3500 twice).armed ≡ false)
confirmation_takes_two_clicks_example =
    confirmation_takes_two_clicks 2 500 3500 twice
      (clicked 500 false false (omega arith) (clicked 10 false false (omega arith) fresh))
      (omega arith)
