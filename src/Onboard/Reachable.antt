-- ===== src/Onboard/Reachable.antt =====
-- The reachable states of frontend/src/pages/Onboard/Onboard.tsx.
use mathlib.Core.Path.{subst}
use lokinode.Common.{
  All, Bool, List, Text, [], arith, codes, false, is_empty, join, length, some, text_eq, trim, true,
  words, ◌++◌, ◌∷◌, ◌≡◌, ◌≤◌, ◌⊎◌,
}
use lokinode.Onboard.Launch.{init_body, InitBody}
use lokinode.Session.{Fetched, answered, failed}
use lokinode.Onboard.Wizard.{
  initial_wizard, node, restore_wallet, review, create_wallet, wallet_mode, following, go_next,
  same_stage, WalletMode, Wizard,
}
use lokinode.Onboard.Steps.{
  press_back, offered_dir, chose_dir, picked, Next, settled, checks_dir, asks_seed, is_shown, Input,
  reset_launch, pick_mode, offer_default_dir, choose_node_dir, handle,
}
use lokinode.Onboard.Valid.{kind_is_valid, password_is_valid, in_order, Inv}
use lokinode.Onboard.Moves.{back-Inv}
use lokinode.Onboard.Press.{AsksWords, Leaves, next-Leaves, dir_checked-Leaves, seed_made-Inv}
use lokinode.Onboard.Awaits.{
  Awaited, dir_asked, seed_asked, Page, Reach, opened, acted, pressed, dir_answered, seed_answered,
  waits_for, press_next, dir_came, seed_came,
}

pick-Inv :
    (m : WalletMode) (w : Wizard)
    → same_stage w.stage wallet_mode ≡ true
    → Inv w
    → Inv (pick_mode m w)
unfolding Inv in_order pick_mode go_next following
pick-Inv m w e h = ground arith

choose-Inv : (t : Text) (a : Fetched Bool) (w : Wizard) → Inv w → Inv (choose_node_dir t a w)
unfolding Inv choose_node_dir
choose-Inv [] a w h = h
choose-Inv (c ∷ t) (answered true) w h = h
choose-Inv (c ∷ t) (answered false) w h = h
choose-Inv (c ∷ t) failed w h = h

offer-Inv : (t : Text) (a : Fetched Bool) (w : Wizard) → Inv w → Inv (offer_default_dir t a w)
unfolding Inv offer_default_dir
offer-Inv [] a w h = h
offer-Inv (c ∷ t) (answered true) w h = h
offer-Inv (c ∷ t) (answered false) w h = h
offer-Inv (c ∷ t) failed w h = h

handle-Inv : (i : Input) (w : Wizard) → is_shown i w.stage ≡ true → Inv w → Inv (handle i w)
unfolding Inv in_order handle reset_launch
handle-Inv press_back w e h = back-Inv w h
handle-Inv (picked m) w e h = pick-Inv m w e h
handle-Inv (chose_dir t a) w e h = choose-Inv t a w h
handle-Inv (offered_dir t a) w e h = offer-Inv t a w h
handle-Inv i w e h = ground arith

-- a request that is awaited is of the step that makes it
IsApt : Awaited → Type 0
IsApt (dir_asked seen) = seen.stage ≡ node
IsApt (seed_asked seen) = AsksWords seen

IsSound : Page → Type 0
IsSound p = Inv p.wizard × All IsApt p.awaited

waits_for-IsSound :
    (seen : Wizard) (n : Next) (more : List Awaited)
    → Leaves seen n
    → All IsApt more
    → IsSound (waits_for seen n more)
unfolding waits_for Leaves IsSound IsApt
waits_for-IsSound seen (settled w) more l a = (l, a)
waits_for-IsSound seen (checks_dir w) more l a = (l.0, (l.1, a))
waits_for-IsSound seen (asks_seed w) more l a = (l.0, (l.1, a))

-- the request that is answered, and those that are left
All-around :
    (x : Awaited) (before after : List Awaited)
    → All IsApt (before ++ x ∷ after)
    → IsApt x × All IsApt (before ++ after)
All-around x [] after a = a
All-around x (y ∷ before) after a = let r = All-around x before after a.1 in (r.0, (a.0, r.1))

around :
    (x : Awaited) (before after more : List Awaited)
    → more ≡ before ++ x ∷ after
    → All IsApt more
    → IsApt x × All IsApt (before ++ after)
around x before after more e a = All-around x before after (subst (All IsApt) e a)

opened-Inv : Inv initial_wizard
unfolding Inv in_order
opened-Inv = ground arith

Reach-IsSound : (p : Page) → Reach p → IsSound p
unfolding IsSound IsApt press_next dir_came seed_came
Reach-IsSound p opened = (opened-Inv, tt)
Reach-IsSound _ (acted i p r e) = let h = Reach-IsSound p r in (handle-Inv i p.wizard e h.0, h.1)
Reach-IsSound _ (pressed p r) =
    let h = Reach-IsSound p r in
    waits_for-IsSound p.wizard _ p.awaited (next-Leaves p.wizard h.0) h.1
Reach-IsSound _ (dir_answered seen d before after p r e) =
    let h = Reach-IsSound p r in
    let a = around (dir_asked seen) before after p.awaited e h.1 in
    waits_for-IsSound seen _ (before ++ after) (dir_checked-Leaves seen p.wizard d a.0 h.0) a.1
Reach-IsSound _ (seed_answered seen s before after p r e i) =
    let h = Reach-IsSound p r in
    let a = around (seed_asked seen) before after p.awaited e h.1 in
    (seed_made-Inv seen p.wizard s a.0 i h.0, a.1)

-- the three ways to make a wallet
pub Created : Wizard → InitBody → Type 0
unfolding join
Created w b =
    (w.mode ≡ some create_wallet) × (b.mnemonic ≡ join (codes " ") w.generated_words) × (b.hex ≡ [])

pub FromWords : Wizard → InitBody → Type 0
unfolding words trim
FromWords w b =
    (w.mode ≡ some restore_wallet)
    × (length (words w.restore_mnemonic) ≡ 24)
    × (b.mnemonic ≡ trim w.restore_mnemonic)
    × (b.hex ≡ [])

pub FromHex : Wizard → InitBody → Type 0
unfolding trim
FromHex w b =
    (w.mode ≡ some restore_wallet)
    × (b.mnemonic ≡ [])
    × (b.hex ≡ trim w.restore_hex)
    × (is_empty b.hex ≡ false)

on_review :
    (w : Wizard)
    → w.stage ≡ review
    → Inv w
    → (8 ≤ length (init_body w).password)
      × (text_eq (init_body w).password w.confirm_pwd ≡ true)
      × (Created w (init_body w) ⊎ FromWords w (init_body w) ⊎ FromHex w (init_body w))
unfolding Inv in_order init_body Created FromWords FromHex password_is_valid kind_is_valid words
    trim text_eq
on_review w e h = ground arith

-- Where the last step of the wizard is reached by its fields and buttons, with any inputs between a press
-- of Next and the answers to its requests, but for the mode and the password, which are those of the press
-- again when the words come that it has asked for, what a launch posts to /api/wallet/init has a password
-- of at least eight characters that was typed twice, and makes the wallet in one of three ways: from the
-- words that the daemon generated, in the mode that creates a wallet, or, in the other, from a text of
-- exactly 24 words, or from a hexadecimal text that is not blank.
pub init_is_valid :
    (p : Page)
    → Reach p
    → p.wizard.stage ≡ review
    → let w = p.wizard in
      (8 ≤ length (init_body w).password)
      × (text_eq (init_body w).password w.confirm_pwd ≡ true)
      × (Created w (init_body w) ⊎ FromWords w (init_body w) ⊎ FromHex w (init_body w))
unfolding IsSound
init_is_valid p r e = on_review p.wizard e (Reach-IsSound p r).0
