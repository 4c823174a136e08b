-- ===== src/Onboard/Press.antt =====
-- What a press of Next in frontend/src/pages/Onboard/Onboard.tsx has checked, up to its end or its request.
use lokinode.Common.{
  Bool, List, Option, Text, ap, arith, false, if◌then◌else◌, is_empty, is_some, none, refl, some,
  sym, text_eq, trim, true, words, ◌&&◌, ◌∙◌, ◌≡◌,
}
use lokinode.Onboard.Wizard.{
  node_is_valid, validate_node, validate_password, validate_restore, no_message, order, node,
  wallet_mode, password, seed_reveal, restore, create_wallet, following, go_next, same_stage, Stage,
  WalletMode, restore_wallet, Wizard, review,
}
use lokinode.Onboard.Steps.{
  Next, checks_dir, next_from, if_valid, settled, asks_seed, handle_next, reveal_or_go, go_on,
  dir_checked, seed_made,
}
use lokinode.Session.{Fetched, answered, failed}
use lokinode.Onboard.Awaits.{SameEntries}
use lokinode.Onboard.Valid.{in_order, kind_is_valid, password_is_valid, Inv, Checked}
use lokinode.Onboard.Moves.{go_next-Inv}

-- a press that asks for words was at the step of a valid password, in the mode that creates a wallet
pub AsksWords : Wizard → Type 0
AsksWords seen =
    (seen.stage ≡ password)
    × (seen.mode ≡ some create_wallet)
    × (password_is_valid seen.pwd seen.confirm_pwd ≡ true)

-- what a press at `seen` leaves: a wizard that is well formed, and of the step that its request is for
unfoldable pub Leaves : Wizard → Next → Type 0
Leaves seen (settled w) = Inv w
Leaves seen (checks_dir w) = Inv w × (seen.stage ≡ node)
Leaves seen (asks_seed w) = Inv w × AsksWords seen

-- the step of the words comes after that of the password only, in the mode that creates a wallet
before_words :
    (m : Option WalletMode) (g q : Stage)
    → following g (order m) ≡ some q
    → same_stage q seed_reveal ≡ true
    → (g ≡ password) × (m ≡ some create_wallet)
unfolding following
before_words none node q e h = ground arith
before_words none g q e h = ground arith
before_words (some create_wallet) g q e h = ground arith
before_words (some restore_wallet) g q e h = ground arith

-- `v` is the state that the handler made at `w` has got to
module _ (w v : Wizard) (e : w.mode ≡ v.mode) (f : w.stage ≡ v.stage) (c : Checked v) (h : Inv v)
    (k : same_stage w.stage password ≡ true → password_is_valid w.pwd w.confirm_pwd ≡ true) where
  ask-Leaves :
      (b : Bool)
      → (b ≡ true → AsksWords w)
      → Leaves w (if b then asks_seed v else settled (go_next w.mode w.stage v))
  unfolding Leaves
  ask-Leaves true a = (h, a refl)
  ask-Leaves false a = go_next-Inv w.mode w.stage v e f c h

  asks_words :
      (q : Stage)
      → following w.stage (order w.mode) ≡ some q
      → same_stage q seed_reveal && is_empty w.generated_words ≡ true
      → AsksWords w
  unfolding AsksWords
  asks_words q i j =
      let l = before_words w.mode w.stage q i (ground arith) in
      (l.0, l.1, k (ap (λ g. same_stage g password) l.0))

  reveal-Leaves :
      (o : Option Stage) → following w.stage (order w.mode) ≡ o → Leaves w (reveal_or_go o w v)
  unfolding Leaves reveal_or_go
  reveal-Leaves none i = h
  reveal-Leaves (some q) i =
      ask-Leaves (same_stage q seed_reveal && is_empty w.generated_words) (asks_words q i)

  go_on-Leaves : Leaves w (go_on w v)
  unfolding go_on
  go_on-Leaves = reveal-Leaves (following w.stage (order w.mode)) refl

if-Leaves :
    (b : Bool) (w : Wizard)
    → (b ≡ true → Checked w)
    → Inv w
    → Leaves w (if b then go_on w w else settled w)
unfolding Leaves
if-Leaves true w c h = go_on-Leaves w w refl refl (c refl) h (c refl).1
if-Leaves false w c h = h

if_valid-Leaves :
    (w : Wizard) (r : Wizard × Bool)
    → w.mode ≡ r.0.mode
    → w.stage ≡ r.0.stage
    → (r.1 ≡ true
        → Checked r.0
          × (same_stage w.stage password ≡ true → password_is_valid w.pwd w.confirm_pwd ≡ true))
    → Inv r.0
    → Leaves w (if_valid w r)
unfolding if_valid Leaves
if_valid-Leaves w (v, true) e f c h = go_on-Leaves w v e f (c refl).0 h (c refl).1
if_valid-Leaves w (v, false) e f c h = h

validate_password-Checked :
    (w : Wizard)
    → w.stage ≡ password
    → (validate_password w).1 ≡ true
    → Checked (validate_password w).0
      × (same_stage w.stage password ≡ true → password_is_valid w.pwd w.confirm_pwd ≡ true)
unfolding validate_password password_is_valid text_eq
validate_password-Checked w e h = ground arith

validate_restore-Checked :
    (w : Wizard)
    → w.stage ≡ restore
    → (validate_restore w).1 ≡ true
    → Checked (validate_restore w).0
      × (same_stage w.stage password ≡ true → password_is_valid w.pwd w.confirm_pwd ≡ true)
unfolding validate_restore kind_is_valid words trim
validate_restore-Checked w e h = ground arith

checks_if :
    (b : Bool) (w v : Wizard)
    → w.stage ≡ node
    → Inv v
    → Leaves w (if b then checks_dir v else settled v)
unfolding Leaves
checks_if true w v e h = (h, e)
checks_if false w v e h = h

validate_password-Inv :
    (w : Wizard)
    → Inv w
    → ((validate_password w).0.mode ≡ w.mode)
      × ((validate_password w).0.stage ≡ w.stage)
      × Inv (validate_password w).0
unfolding validate_password Inv
validate_password-Inv w h = ground arith

validate_restore-Inv :
    (w : Wizard)
    → Inv w
    → ((validate_restore w).0.mode ≡ w.mode)
      × ((validate_restore w).0.stage ≡ w.stage)
      × Inv (validate_restore w).0
unfolding validate_restore Inv
validate_restore-Inv w h = ground arith

-- a press of Next at each step
next_at : (g : Stage) (w : Wizard) → w.stage ≡ g → Inv w → Leaves w (next_from g w)
unfolding next_from validate_node Inv Leaves
next_at node w e h = checks_if (node_is_valid w) w (validate_node w).0 e h
next_at wallet_mode w e h = if-Leaves (is_some w.mode) w (ground arith) h
next_at password w e h =
    let l = validate_password-Inv w h in
    if_valid-Leaves w (validate_password w) (sym l.0) (sym l.1) (validate_password-Checked w e) l.2
next_at seed_reveal w e h = if-Leaves w.seed_ack w (ground arith) h
next_at restore w e h =
    let l = validate_restore-Inv w h in
    if_valid-Leaves w (validate_restore w) (sym l.0) (sym l.1) (validate_restore-Checked w e) l.2
next_at review w e h = if-Leaves true w (ground arith) h

pub next-Leaves : (w : Wizard) → Inv w → Leaves w (handle_next w)
unfolding handle_next
next-Leaves w h = next_at w.stage w refl h

-- the directory is that of a render at the first step: the next step is that of the mode
after_node : (m : Option WalletMode) → following node (order m) ≡ some wallet_mode
unfolding following
after_node none = refl
after_node (some create_wallet) = refl
after_node (some restore_wallet) = refl

mode_step-Inv : (v : Wizard) → Inv v → Inv (record v { stage = wallet_mode })
unfolding Inv in_order
mode_step-Inv v h = ground arith

from_node-Leaves : (seen v : Wizard) → seen.stage ≡ node → Inv v → Leaves seen (go_on seen v)
unfolding go_on reveal_or_go go_next Leaves
from_node-Leaves seen v e h = rw (e, after_node seen.mode, after_node seen.mode) (mode_step-Inv v h)

pub dir_checked-Leaves :
    (seen v : Wizard) (d : Fetched Bool)
    → seen.stage ≡ node
    → Inv v
    → Leaves seen (dir_checked seen d v)
unfolding dir_checked Leaves Inv
dir_checked-Leaves seen v (answered true) e h = h
dir_checked-Leaves seen v (answered false) e h =
    from_node-Leaves seen (record v { dir_error = no_message }) e h
dir_checked-Leaves seen v failed e h = h

words_step-Inv :
    (v : Wizard)
    → v.mode ≡ some create_wallet
    → password_is_valid v.pwd v.confirm_pwd ≡ true
    → Inv (record v { stage = seed_reveal })
unfolding Inv in_order
words_step-Inv v m k = ground arith

pub seed_made-Inv :
    (seen v : Wizard) (s : Fetched (List Text))
    → AsksWords seen
    → SameEntries seen v
    → Inv v
    → Inv (seed_made seen s v)
unfolding seed_made go_next AsksWords following
seed_made-Inv seen v failed a i h = h
seed_made-Inv seen v (answered t) a i h =
    rw (a.0, a.1)
      (words_step-Inv (record v { generated_words = t }) (i.same_mode ∙ a.1)
        (rw (i.same_pwd, i.same_confirm) a.2))
