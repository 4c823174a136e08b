-- ===== src/Confirm/Clicks.antt =====
-- The clicks that a confirmation takes, on the button of frontend/src/components/ui/ConfirmButton.tsx.
use lokinode.Common.{
  Bool, Option-cases, arith, false, inl, inr, is_some, leb, refl, some, suc, true, ℕ, ◌*◌, ◌+◌, ◌≡◌,
  ◌≤◌,
}
use lokinode.Confirm.{
  Button, Reach, fresh, clicked, left, elapsed, handle_click, handle_click_outside, timer_fires,
  arm, confirm,
}

abbrev pub flag : Bool → ℕ
flag true = 1
flag false = 0

record Inv (clicks last : ℕ) (b : Button) : Type 0 where
  two : 2 * b.confirmed + flag b.armed ≤ clicks
  timed : is_some b.timer ≡ b.armed
  soon : (due : ℕ) → b.timer ≡ some due → due ≤ last + 3000

click-Inv :
    (clicks last now : ℕ) (loading disabled : Bool) (b : Button)
    → last ≤ now
    → Inv clicks last b
    → Inv (suc clicks) now (handle_click now loading disabled b)
unfolding handle_click arm confirm
click-Inv clicks last now loading disabled b le i = ground arith

left-Inv :
    (clicks last : ℕ) (b : Button) → Inv clicks last b → Inv clicks last (handle_click_outside b)
unfolding handle_click_outside
left-Inv clicks last b i = ground arith

elapsed-Inv :
    (clicks last now : ℕ) (b : Button) → Inv clicks last b → Inv clicks last (timer_fires now b)
unfolding timer_fires
elapsed-Inv clicks last now b i = ground arith

Reach-Inv : {clicks last : ℕ} {b : Button} → Reach clicks last b → Inv clicks last b
Reach-Inv fresh = record { two = omega arith; timed = refl; soon = λ due e. cc }
Reach-Inv (clicked now loading disabled le r) =
    click-Inv _ _ now loading disabled _ le (Reach-Inv r)
Reach-Inv (left r) = left-Inv _ _ _ (Reach-Inv r)
Reach-Inv (elapsed now r) = elapsed-Inv _ _ now _ (Reach-Inv r)

disarms :
    (clicks last later : ℕ) (b : Button)
    → Inv clicks last b
    → last + 3000 ≤ later
    → (timer_fires later b).armed ≡ false
unfolding timer_fires
disarms clicks last later b i le = elim (Option-cases b.timer) [
  | inl e ↦ rw e (ground arith)
  | inr (due, e) ↦
      let over : leb due later ≡ true = ground (arith, i.soon due e) in rw (e, over) refl
]

-- Whatever is clicked and whenever timers fire, each confirmation has taken two clicks of its own, and an
-- armed button one more; and three seconds after the last click the timer disarms the button, if it
-- was armed.
pub confirmation_takes_two_clicks :
    (clicks last later : ℕ) (b : Button)
    → Reach clicks last b
    → last + 3000 ≤ later
    → (2 * b.confirmed + flag b.armed ≤ clicks) × ((timer_fires later b).armed ≡ false)
confirmation_takes_two_clicks clicks last later b r le =
    let i = Reach-Inv r in (i.two, disarms clicks last later b i le)
