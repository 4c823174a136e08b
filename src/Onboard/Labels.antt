-- ===== src/Onboard/Labels.antt =====
-- The texts of the wizard of frontend/src/pages/Onboard/Onboard.tsx as keys of
-- frontend/src/i18n/translations.ts.
use lokinode.Common.{refl, some}
use lokinode.Translations.Table.{lookup}
use lokinode.Translations.En.{en}
use lokinode.Language.Shown.{IsKey}
use lokinode.Onboard.Texts.{step_title, step_desc}
use lokinode.Onboard.Overlay.{overlay_label, overlay_sub, message_key}
use lokinode.Onboard.Wizard.{
  Stage, LaunchPhase, Message, idle, verifying, starting, waiting_nowallet, initializing_wallet,
  done, error, no_message, dir_required, dir_not_empty, wallet_exists, invalid_cors, invalid_listen,
  pwd_min, pwd_match, mnemonic_len, hex_required, node, wallet_mode, password, seed_reveal, restore,
  review,
}

pub step_title-IsKey : (x : Stage) → IsKey (some (step_title x))
unfolding IsKey lookup en
step_title-IsKey node = refl
step_title-IsKey wallet_mode = refl
step_title-IsKey password = refl
step_title-IsKey seed_reveal = refl
step_title-IsKey restore = refl
step_title-IsKey review = refl

pub step_desc-IsKey : (x : Stage) → IsKey (some (step_desc x))
unfolding IsKey lookup en
step_desc-IsKey node = refl
step_desc-IsKey wallet_mode = refl
step_desc-IsKey password = refl
step_desc-IsKey seed_reveal = refl
step_desc-IsKey restore = refl
step_desc-IsKey review = refl

pub overlay_label-IsKey : (x : LaunchPhase) → IsKey (overlay_label x)
unfolding IsKey lookup en
overlay_label-IsKey idle = tt
overlay_label-IsKey verifying = refl
overlay_label-IsKey starting = refl
overlay_label-IsKey waiting_nowallet = refl
overlay_label-IsKey initializing_wallet = refl
overlay_label-IsKey done = refl
overlay_label-IsKey error = refl

pub overlay_sub-IsKey : (x : LaunchPhase) → IsKey (overlay_sub x)
unfolding IsKey lookup en
overlay_sub-IsKey idle = tt
overlay_sub-IsKey verifying = refl
overlay_sub-IsKey starting = refl
overlay_sub-IsKey waiting_nowallet = refl
overlay_sub-IsKey initializing_wallet = refl
overlay_sub-IsKey done = tt
overlay_sub-IsKey error = tt

pub message_key-IsKey : (x : Message) → IsKey (message_key x)
unfolding IsKey lookup en
message_key-IsKey no_message = tt
message_key-IsKey dir_required = refl
message_key-IsKey dir_not_empty = refl
message_key-IsKey wallet_exists = refl
message_key-IsKey invalid_cors = refl
message_key-IsKey invalid_listen = refl
message_key-IsKey pwd_min = refl
message_key-IsKey pwd_match = refl
message_key-IsKey mnemonic_len = refl
message_key-IsKey hex_required = refl
