-- ===== src/Onboard/Overlay.antt =====
-- The overlay of a launch, LaunchOverlay of frontend/src/pages/Onboard/Onboard.tsx, and the texts of the
-- wizard's messages, by their translation keys.
use lokinode.Common.{Bool, Option, String, false, none, some, true}
use lokinode.Onboard.Wizard.{
  LaunchPhase, idle, verifying, starting, waiting_nowallet, initializing_wallet, done, error,
  Message, no_message, dir_required, dir_not_empty, wallet_exists, invalid_cors, invalid_listen,
  pwd_min, pwd_match, mnemonic_len, hex_required,
}

-- `phaseLabel`; there is no overlay while no launch is on
abbrev pub overlay_label : LaunchPhase → Option String
overlay_label idle = none
overlay_label verifying = some "onboard.launch.verifying"
overlay_label starting = some "onboard.launch.starting"
overlay_label waiting_nowallet = some "onboard.launch.waiting"
overlay_label initializing_wallet = some "onboard.launch.initializing"
overlay_label done = some "onboard.launch.done"
overlay_label error = some "onboard.launch.error"

-- `phaseSub`, but for the error, where it is the launch's own message
abbrev pub overlay_sub : LaunchPhase → Option String
overlay_sub verifying = some "onboard.launch.verifying_sub"
overlay_sub starting = some "onboard.launch.starting_sub"
overlay_sub waiting_nowallet = some "onboard.launch.waiting_sub"
overlay_sub initializing_wallet = some "onboard.launch.initializing_sub"
overlay_sub _ = none

abbrev pub shows_spinner : LaunchPhase → Bool
shows_spinner idle = false
shows_spinner done = false
shows_spinner error = false
shows_spinner _ = true

abbrev pub shows_dismiss : LaunchPhase → Bool
shows_dismiss error = true
shows_dismiss _ = false

-- the texts of the messages at the fields
abbrev pub message_key : Message → Option String
message_key no_message = none
message_key dir_required = some "validation.dir_required"
message_key dir_not_empty = some "validation.dir_not_empty"
message_key wallet_exists = some "onboard.errors.wallet_exists"
message_key invalid_cors = some "validation.invalid_cors"
message_key invalid_listen = some "validation.invalid_listen"
message_key pwd_min = some "onboard.errors.pwd_min"
message_key pwd_match = some "onboard.errors.pwd_match"
message_key mnemonic_len = some "onboard.errors.mnemonic_len"
message_key hex_required = some "onboard.errors.hex_required"
