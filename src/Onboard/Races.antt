-- ===== src/Onboard/Races.antt =====
-- The moves of frontend/src/pages/Onboard/Onboard.tsx back and forth, and what the checks miss.
use lokinode.Common.{
  Bool, List, Option, Text, [], arith, false, is_blank, none, refl, some, true, ℕ, ◌||◌, ◌∷◌, ◌≡◌,
  ◌≢◌,
}
use lokinode.Session.{answered}
use lokinode.Onboard.Wizard.{
  no_message, node_is_valid, move_on, validate_node, validate_password, order, WalletMode,
  same_stage, Stage, preceding, go_next, go_back, following, node, password, seed_reveal, review,
  create_wallet, restore_wallet, dir_not_empty, Wizard,
}
use lokinode.Onboard.Steps.{
  handle, reveal_or_go, go_on, if_valid, choose_node_dir, next_from, handle_next, settled,
  asks_seed, type_pwd, seed_made,
}
use lokinode.Onboard.Valid.{password_is_valid}

-- `order.includes(s)`
unfoldable pub in_steps : Stage → List Stage → Bool
in_steps s [] = false
in_steps s (p ∷ ps) = same_stage s p || in_steps s ps

undo_lem :
    (m : Option WalletMode) (g q : Stage)
    → in_steps g (order m) ≡ true
    → following g (order m) ≡ some q
    → preceding q (order m) ≡ some g
unfolding in_steps following preceding
undo_lem none node q e h = ground arith
undo_lem none g q e h = ground arith
undo_lem (some create_wallet) node q e h = ground arith
undo_lem (some create_wallet) g q e h = ground arith
undo_lem (some restore_wallet) g q e h = ground arith

more_lem :
    (m : Option WalletMode) (g : Stage)
    → in_steps g (order m) ≡ true
    → same_stage g review ≡ false
    → following g (order m) ≢ none
unfolding in_steps following
more_lem none node e h = ground arith
more_lem none g e h = ground arith
more_lem (some create_wallet) node e h = ground arith
more_lem (some create_wallet) g e h = ground arith
more_lem (some restore_wallet) g e h = ground arith

move_lem :
    (w : Wizard) (o : Option Stage)
    → following w.stage (order w.mode) ≡ o
    → in_steps w.stage (order w.mode) ≡ true
    → same_stage w.stage review ≡ false
    → go_back (move_on o w) ≡ w
unfolding go_back
move_lem w none e h i = absurd (more_lem w.mode w.stage h i e)
move_lem w (some q) e h i = rw (undo_lem w.mode w.stage q h e)

-- From every step of the order but the last, `goBack` after `goNext` gives the state before, in every mode
-- and where no mode is chosen.
pub back_undoes_next :
    (w : Wizard)
    → in_steps w.stage (order w.mode) ≡ true
    → same_stage w.stage review ≡ false
    → go_back (go_next w.mode w.stage w) ≡ w
unfolding go_next
back_undoes_next w h i = move_lem w (following w.stage (order w.mode)) refl h i

-- A directory that the dialog gave, that is not blank and that is not empty is refused by the first
-- step: Next does not ask the backend whether it holds a node, stays and keeps the message.
pub nonempty_dir_is_refused :
    (w : Wizard) (c : ℕ) (dir : Text)
    → w.stage ≡ node
    → is_blank (c ∷ dir) ≡ false
    → (v : Wizard) × (handle_next (choose_node_dir (c ∷ dir) (answered false) w) ≡ settled v)
      × (v.stage ≡ node)
      × (v.dir_error ≡ dir_not_empty)
unfolding handle_next choose_node_dir next_from validate_node node_is_valid
nonempty_dir_is_refused w c dir e h = (
  (validate_node (choose_node_dir (c ∷ dir) (answered false) w)).0,
  ground arith,
  e,
  ground arith,
)

-- In the mode that creates a wallet, on the step of the password with a valid one and no words yet,
-- Next asks for the words; whatever the password is changed to until they come, the page then goes
-- on to the words with that password.
pub password_changes_while_seed_is_made :
    (w : Wizard) (seed : List Text) (t : Text)
    → w.stage ≡ password
    → w.mode ≡ some create_wallet
    → w.generated_words ≡ []
    → password_is_valid w.pwd w.confirm_pwd ≡ true
    → (v : Wizard) × (handle_next w ≡ asks_seed v)
      × ((seed_made w (answered seed) (handle (type_pwd t) v)).stage ≡ seed_reveal)
      × ((seed_made w (answered seed) (handle (type_pwd t) v)).pwd ≡ t)
unfolding handle_next next_from validate_password if_valid go_on reveal_or_go following
    password_is_valid seed_made handle go_next
password_changes_while_seed_is_made w seed t e m g h =
    (record w { pwd_error = no_message }, ground arith, ground arith, ground arith)
