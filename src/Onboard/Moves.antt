-- ===== src/Onboard/Moves.antt =====
-- The moves between the steps of frontend/src/pages/Onboard/Onboard.tsx.
use lokinode.Common.{Option, arith, false, is_some, none, refl, some, true, ◌≡◌}
use lokinode.Onboard.Wizard.{
  move_back, move_on, order, node, wallet_mode, password, restore, create_wallet, restore_wallet,
  following, go_next, preceding, same_stage, go_back, Stage, WalletMode, Wizard, review,
}
use lokinode.Onboard.Valid.{in_order, past_password, is_restore, Inv, Checked}

preceding_lem :
    (m : Option WalletMode) (g q : Stage)
    → in_order m g ≡ true
    → preceding g (order m) ≡ some q
    → (in_order m q ≡ true)
      × (past_password q ≡ true → past_password g ≡ true)
      × (same_stage q review ≡ false)
unfolding in_order preceding
preceding_lem none node q e h = ground arith
preceding_lem none g q e h = ground arith
preceding_lem (some create_wallet) node q e h = ground arith
preceding_lem (some create_wallet) g q e h = ground arith
preceding_lem (some restore_wallet) g q e h = ground arith

move_back-Inv :
    (o : Option Stage) (w : Wizard)
    → preceding w.stage (order w.mode) ≡ o
    → Inv w
    → Inv (move_back o w)
unfolding Inv
move_back-Inv none w e h = h
move_back-Inv (some q) w e h = let l = preceding_lem w.mode w.stage q h.0 e in ground arith

pub back-Inv : (w : Wizard) → Inv w → Inv (go_back w)
unfolding go_back
back-Inv w h = move_back-Inv (preceding w.stage (order w.mode)) w refl h

following_lem :
    (m : Option WalletMode) (g q : Stage)
    → in_order m g ≡ true
    → following g (order m) ≡ some q
    → (same_stage g wallet_mode ≡ true → is_some m ≡ true)
    → (in_order m q ≡ true)
      × (past_password q ≡ true → past_password g ≡ false → same_stage g password ≡ true)
      × (same_stage q review ≡ true → is_restore m ≡ true → same_stage g restore ≡ true)
unfolding in_order following
following_lem none node q e h i = ground arith
following_lem none g q e h i = ground arith
following_lem (some create_wallet) g q e h i = ground arith
following_lem (some restore_wallet) g q e h i = ground arith

move_on-Inv :
    (o : Option Stage) (w : Wizard)
    → following w.stage (order w.mode) ≡ o
    → Checked w
    → Inv w
    → Inv (move_on o w)
unfolding Inv
move_on-Inv none w e c h = h
move_on-Inv (some q) w e c h = let l = following_lem w.mode w.stage q h.0 e c.0 in ground arith

pub go_next-Inv :
    (m : Option WalletMode) (g : Stage) (w : Wizard)
    → m ≡ w.mode
    → g ≡ w.stage
    → Checked w
    → Inv w
    → Inv (go_next m g w)
unfolding go_next
go_next-Inv m g w e f ch h =
    let p : following w.stage (order w.mode) ≡ following g (order m) = cc in
    move_on-Inv (following g (order m)) w p ch h
