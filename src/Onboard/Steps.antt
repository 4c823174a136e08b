-- ===== src/Onboard/Steps.antt =====
-- The handlers of the wizard. A handler that awaits the backend stops there;
-- what follows the await reads the values of the render that the handler was made in (`seen`) and
-- updates the state that is there then.
use lokinode.Common.{
  Bool, List, Option, Text, [], false, if◌then◌else◌, is_empty, is_some, none, not, some, true,
  ◌&&◌, ◌∷◌,
}
use lokinode.Session.{Fetched, answered, failed}
use lokinode.Onboard.Wizard.{
  node, restore, seed_reveal, password, wallet_mode, dir_not_empty, order, validate_restore,
  no_error, wallet_exists, no_message, following, RestoreKind, idle, validate_password, same_stage,
  Stage, WalletMode, go_back, validate_node, Wizard, go_next, review,
}

-- where `handleNext` is after its run to the next await
pub data Next : Type 0 where
  settled checks_dir asks_seed : Wizard → Next

-- the part after the checks of the step, from `nextStep` on
unfoldable pub reveal_or_go : Option Stage → Wizard → Wizard → Next
unfolding go_next
reveal_or_go none seen w = settled w
reveal_or_go (some next) seen w =
    if same_stage next seed_reveal && is_empty seen.generated_words
    then asks_seed w
    else settled (go_next seen.mode seen.stage w)

unfoldable pub go_on : Wizard → Wizard → Next
unfolding following reveal_or_go
go_on seen w = reveal_or_go (following seen.stage (order seen.mode)) seen w

unfoldable pub if_valid : Wizard → Wizard × Bool → Next
unfolding go_on
if_valid seen (w, false) = settled w
if_valid seen (w, true) = go_on seen w

-- the checks of a step
unfoldable pub next_from : Stage → Wizard → Next
unfolding if_valid go_on validate_node validate_password validate_restore
next_from node w = let v = validate_node w in if v.1 then checks_dir v.0 else settled v.0
next_from wallet_mode w = if is_some w.mode then go_on w w else settled w
next_from password w = if_valid w (validate_password w)
next_from seed_reveal w = if w.seed_ack then go_on w w else settled w
next_from restore w = if_valid w (validate_restore w)
next_from review w = go_on w w

unfoldable pub handle_next : Wizard → Next
unfolding next_from
handle_next w = next_from w.stage w

-- the answer of /api/node/check-dir: whether the directory holds a node
unfoldable pub dir_checked : Wizard → Fetched Bool → Wizard → Next
unfolding go_on
dir_checked seen (answered true) w = settled (record w { dir_error = wallet_exists })
dir_checked seen (answered false) w = go_on seen (record w { dir_error = no_message })
dir_checked seen failed w = settled w

-- the answer of /api/wallet/seed
unfoldable pub seed_made : Wizard → Fetched (List Text) → Wizard → Wizard
unfolding go_next
seed_made seen (answered seed) w =
    go_next seen.mode seen.stage (record w { generated_words = seed })
seed_made seen failed w = w

-- `chooseNodeDir`: the directory that the dialog gives, if any, and whether it is empty
unfoldable pub choose_node_dir : Text → Fetched Bool → Wizard → Wizard
choose_node_dir [] answer w = w
choose_node_dir (c ∷ dir) (answered true) w = record w {
  node_dir = c ∷ dir;
  dir_error = no_message;
}
choose_node_dir (c ∷ dir) (answered false) w = record w {
  node_dir = c ∷ dir;
  dir_error = dir_not_empty;
}
choose_node_dir (c ∷ dir) failed w = record w { node_dir = c ∷ dir }

-- the answers to the first effect: the default directory and whether it holds a node
unfoldable pub offer_default_dir : Text → Fetched Bool → Wizard → Wizard
offer_default_dir (c ∷ dir) (answered false) w = record w { node_dir = c ∷ dir }
offer_default_dir [] answer w = w
offer_default_dir _ _ w = w

unfoldable pub pick_mode : WalletMode → Wizard → Wizard
unfolding go_next
pick_mode m w = go_next w.mode w.stage (record w { mode = some m })

unfoldable pub reset_launch : Wizard → Wizard
reset_launch w = record w {
  cancel_launch = true;
  phase = idle;
  launch_error = no_error;
  seed_ack = false;
}

-- what the fields and buttons of each step do
pub data Input : Type 0 where
  type_alias type_cors type_rpc type_rest_listen : Text → Input
  toggle_advanced toggle_ack press_back dismiss : Input
  chose_dir offered_dir : Text → Fetched Bool → Input
  picked : WalletMode → Input
  type_pwd type_confirm type_mnemonic type_passphrase type_hex : Text → Input
  pick_kind : RestoreKind → Input

-- the field or button is on the page; a directory may come on any step, after the request for it
abbrev pub is_shown : Input → Stage → Bool
is_shown press_back s = true
is_shown dismiss s = true
is_shown (chose_dir d a) s = true
is_shown (offered_dir d a) s = true
is_shown (picked m) s = same_stage s wallet_mode
is_shown (type_pwd t) s = same_stage s password
is_shown (type_confirm t) s = same_stage s password
is_shown (type_mnemonic t) s = same_stage s restore
is_shown (type_passphrase t) s = same_stage s restore
is_shown (type_hex t) s = same_stage s restore
is_shown (pick_kind k) s = same_stage s restore
is_shown toggle_ack s = same_stage s seed_reveal
is_shown _ s = same_stage s node

unfoldable pub handle : Input → Wizard → Wizard
unfolding choose_node_dir offer_default_dir pick_mode reset_launch go_back
handle (type_alias t) w = record w { alias = t; alias_error = false }
handle (type_cors t) w = record w { rest_cors = t; rest_cors_error = no_message }
handle (type_rpc t) w = record w { rpc_listen = t; rpc_listen_error = no_message }
handle (type_rest_listen t) w = record w { rest_listen = t; rest_listen_error = no_message }
handle toggle_advanced w = record w { show_advanced = not w.show_advanced }
handle toggle_ack w = record w { seed_ack = not w.seed_ack }
handle press_back w = go_back w
handle dismiss w = reset_launch w
handle (chose_dir d a) w = choose_node_dir d a w
handle (offered_dir d a) w = offer_default_dir d a w
handle (picked m) w = pick_mode m w
handle (type_pwd t) w = record w { pwd = t; pwd_error = no_message }
handle (type_confirm t) w = record w { confirm_pwd = t; pwd_error = no_message }
handle (type_mnemonic t) w = record w { restore_mnemonic = t; restore_error = no_message }
handle (type_passphrase t) w = record w { restore_seed_passphrase = t }
handle (type_hex t) w = record w { restore_hex = t; restore_error = no_message }
handle (pick_kind k) w = record w { restore_kind = k; restore_error = no_message }
