-- ===== src/Wallet/Change.antt =====
-- When frontend/src/views/settings/Security.tsx asks for a new password, and how the change ends.
use lokinode.Common.{
  Bool-cases, Text, [], arith, false, inl, inr, is_some, length, refl, text_eq, true, ◌||◌, ◌∷◌,
  ◌≡◌, ◌≤◌, ◌⊎◌,
}
use lokinode.Wallet.Password.{
  Security, patch_password, click_update, handle_change_password, validate, confirm_message,
}

text_eq-eq : (s t : Text) → text_eq s t ≡ true → s ≡ t
unfolding text_eq
text_eq-eq [] [] h = refl
text_eq-eq [] (d ∷ t) h = cc
text_eq-eq (c ∷ s) [] h = cc
text_eq-eq (c ∷ s) (d ∷ t) h =
    let heads : c ≡ d = ground arith in let tails : s ≡ t = text_eq-eq s t (ground arith) in cc

-- the request for the passwords in the fields
abbrev IsSent : Security → Security → Type 0
IsSent p q =
    (1 ≤ length p.current_pwd)
    × (8 ≤ length p.new_pwd)
    × (p.new_pwd ≡ p.confirm_pwd)
    × (q.out ≡ patch_password p.current_pwd p.new_pwd ∷ p.out)
    × (q.changing ≡ true)
    × (q.transition.is_active ≡ true)

-- the messages, and nothing else
abbrev IsRejected : Security → Security → Type 0
IsRejected p q =
    (q.out ≡ p.out)
    × (q.changing ≡ false)
    × (q.transition ≡ p.transition)
    × ((is_some q.current_error || is_some q.new_error || is_some q.confirm_error) ≡ true)

-- A click on the button while no change is under way either sends one request, for the passwords as they
-- are in the fields, under the overlay, and then the current one is not empty and the new one has at least
-- eight characters and was typed twice; or it sends nothing, shows no overlay and shows a message at
-- one of the fields.
pub click_update-IsSent :
    (p : Security) → p.changing ≡ false → IsSent p (click_update p) ⊎ IsRejected p (click_update p)
unfolding click_update handle_change_password validate confirm_message
click_update-IsSent p h = elim (Bool-cases (validate p).1) [
  | inl v ↦ inl (ground (arith, text_eq-eq p.new_pwd p.confirm_pwd))
  | inr v ↦ inr (ground arith)
]
