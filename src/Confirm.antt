-- ===== src/Confirm.antt =====
-- The button that asks for a second click, frontend/src/components/ui/ConfirmButton.tsx. Times are in
-- milliseconds; `confirmed` counts the calls of `onConfirm`.
pub mod Clicks
mod Tests
use lokinode.Common.{
  Bool, Option, false, if◌then◌else◌, leb, none, some, suc, true, ℕ, ◌+◌, ◌||◌, ◌≤◌,
}

pub record Button : Type 0 where
  pub armed : Bool
  pub timer : Option ℕ
  pub confirmed : ℕ

abbrev pub initial_button : Button
initial_button = record { armed = false; timer = none; confirmed = 0 }

unfoldable pub arm : ℕ → Button → Button
arm now b = record b { armed = true; timer = some (now + 3000) }

unfoldable pub confirm : Button → Button
confirm b = record b { armed = false; timer = none; confirmed = suc b.confirmed }

unfoldable pub handle_click : ℕ → Bool → Bool → Button → Button
unfolding arm confirm
handle_click now loading disabled b =
    if loading || disabled then b else if b.armed then confirm b else arm now b

-- a press of the mouse somewhere else
unfoldable pub handle_click_outside : Button → Button
handle_click_outside b = if b.armed then record b { armed = false; timer = none } else b

unfoldable pub timer_fires : ℕ → Button → Button
timer_fires now b = elim b.timer [
  | none ↦ b
  | some due ↦ if leb due now then record b { armed = false; timer = none } else b
]

-- a button that was clicked `clicks` times, the last time at `last`
pub data Reach : ℕ → ℕ → Button → Type 0 where
  fresh : Reach 0 0 initial_button
  clicked :
      {clicks last : ℕ} {b : Button} (now : ℕ) (loading disabled : Bool)
      → last ≤ now
      → Reach clicks last b
      → Reach (suc clicks) now (handle_click now loading disabled b)
  left :
      {clicks last : ℕ} {b : Button}
      → Reach clicks last b
      → Reach clicks last (handle_click_outside b)
  elapsed :
      {clicks last : ℕ} {b : Button} (now : ℕ)
      → Reach clicks last b
      → Reach clicks last (timer_fires now b)
