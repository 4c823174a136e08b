-- ===== src/Node/Tests.antt =====
-- Pages, and the theorems about them at those pages.
use lokinode.Translations.Ko.{ko}
use lokinode.Translations.Resources.{resources}
use lokinode.Language.Shown.{IsShownIfAny}
use lokinode.Language.Labels.{labels_are_translated}
use lokinode.Onboard.Wizard.{Wizard, initial_wizard, password, pwd_min, no_message, idle}
use lokinode.Onboard.Texts.{step_title, step_desc}
use lokinode.Onboard.Overlay.{overlay_label, overlay_sub, message_key}
use lokinode.Node.Texts.{phase_label, phase_sub}
use lokinode.Node.Frames.{restarts}
use lokinode.Common.{
  Bool, Option, [], arith, false, none, refl, some, true, ℕ, ◌+◌, ◌-◌, ◌≡◌, ◌≤◌, ◌⊎◌,
}
use lokinode.Daemon.{InfoResponse, StateEvent, DaemonState, starting, down, syncing}
use lokinode.Session.{initial_session, end_transition}
use lokinode.Node.Page.{Page}
use lokinode.Node.Derived.{
  screen, wallet_screen, button_screen, show_escape_hatch, is_down, phase_key, down_phase,
  syncing_phase,
}
use lokinode.Node.Handlers.{main_button, handle_go_home}
use lokinode.Node.Effects.{
  clear_waiting, note_block, leave_when_stopped, follow_restart, watch_boot, in_boot_limbo,
}
use lokinode.Node.Commit.{commit, boot_changed}
use lokinode.Node.Steps.{password_typed, Mounted, stall_due, main_clicked, handle}
use lokinode.Node.Escape.{never_stuck}
use lokinode.Node.Watchdog.{stalls, stalling_input, stalling_render, stalled_boot_is_shown}
use lokinode.Node.Flight.{acted, mounted, at_most_one_restart}
use lokinode.Node.Retry.{start, quiet_input, retry_without_event_hides_error}

abbrev event_of : DaemonState → Option Bool → StateEvent
event_of state corrupted = record {
  state = state;
  node_running = true;
  error = none;
  port_conflict = none;
  another_instance = none;
  neutrino_corrupted = corrupted;
  block_height = none;
  block_hash = none;
  synced_height = none;
  transaction = none;
  mempool_height = none;
  best_header_timestamp = none;
}

abbrev page_of : Option StateEvent → ℕ → Page
page_of event event_no = record {
  session = initial_session;
  transition = end_transition;
  event = event;
  event_no = event_no;
  info = none;
  info_no = 0;
  password = "";
  show_unlock = false;
  is_unlocking = false;
  pwd_error = false;
  is_stopping = false;
  is_locking = false;
  is_retrying = false;
  is_recovering = false;
  restart_stalled = false;
  boot_stalled_since = 0;
  stop_armed = false;
  stop_arm_timer = none;
  lock_timer = none;
  restart_timer = none;
  stall_timer = none;
  navigating_away = false;
  seen_restart_progress = false;
  restart_in_flight = false;
  recovery_in_flight = false;
  last_block_at = 0;
  show_password = false;
  show_logs = false;
  sheet_drag = 0;
  sheet_drag_start = 0;
  is_dragging_sheet = false;
  out = [];
}

abbrev syncing_page : Page
syncing_page = page_of (some (event_of syncing none)) 1

abbrev booting : Page
booting = page_of (some (event_of starting none)) 2

abbrev crashed : Page
crashed = page_of (some (event_of down none)) 3

-- the sequence of Node.test.tsx: `starting` after `syncing`, and 65 seconds with no event
stalled_after_65_seconds :
    phase_key (handle 66000 stall_due (commit 1000 syncing_page booting)) ≡ down_phase
unfolding handle commit boot_changed phase_key watch_boot follow_restart leave_when_stopped
    note_block clear_waiting
stalled_after_65_seconds = refl

not_stalled_after_5_seconds :
    phase_key (handle 6000 stall_due (commit 1000 syncing_page booting)) ≡ syncing_phase
unfolding handle commit boot_changed phase_key watch_boot follow_restart leave_when_stopped
    note_block clear_waiting
not_stalled_after_5_seconds = refl

abbrev answered_info : InfoResponse
answered_info = record {
  version = "";
  latest_version = "";
  synced_to_chain = false;
  block_height = 1;
  mempool_height = 0;
  best_header_timestamp = 0;
  node_pubkey = "";
  node_alias = "b";
  state = syncing;
  error = none;
  node_running = true;
  another_instance = none;
  port_conflict = none;
  neutrino_corrupted = none;
  node_public = true;
  external_ip = "1.2.3.4";
  rest_cors = "*";
  network = "main";
  node_dir = "/d";
  rest_endpoint = "127.0.0.1:5050";
  macaroon_path = "/d/admin.macaroon";
  tls_cert_path = "/d/tls.cert";
  peer_address = "";
  rpc_address = "127.0.0.1:10005";
  macaroon_hex = "";
  tls_cert_hex = "";
}

abbrev with_info : Page → Page
with_info p = record p { info = some answered_info; info_no = 1 }

never_stuck_example :
    (screen (with_info booting) ≡ wallet_screen)
    ⊎ ((screen (with_info booting) ≡ button_screen)
        × ((show_escape_hatch (with_info booting) ≡ true)
            ⊎ (main_button (with_info booting) ≡ handle_go_home (with_info booting))))
never_stuck_example = never_stuck (with_info booting) refl refl refl refl refl

-- the boot after `syncing`, with a wallet password typed and rendered in between
abbrev first_commit : Page
first_commit = commit 1000 (with_info syncing_page) (with_info booting)

abbrev typed : Page
typed = handle 5000 (password_typed "secret") first_commit

limbo_typed : in_boot_limbo typed ≡ true
unfolding in_boot_limbo commit boot_changed watch_boot follow_restart leave_when_stopped note_block
    clear_waiting handle
limbo_typed = refl

stalled_boot_is_shown_example :
    is_down (handle 66000 stall_due (commit 6000 (with_info booting) typed)) ≡ true
unfolding commit handle watch_boot follow_restart leave_when_stopped note_block clear_waiting
stalled_boot_is_shown_example =
    stalled_boot_is_shown 1000 6000 66000 typed (commit 6000 (with_info booting) typed)
      (stalling_render 6000
        (stalling_input 5000 (password_typed "secret")
          (stalls (with_info syncing_page) (with_info booting) refl (unfold in_boot_limbo in refl)
            (unfold in_boot_limbo in refl) refl)
          (omega arith) refl)
        (omega arith) limbo_typed)
      (omega arith) (omega arith) refl refl refl

abbrev at_crash : Mounted
at_crash = record { rendered = crashed; page = crashed }

at_most_one_restart_example :
    0 + (restarts (handle 10 main_clicked crashed).out - restarts crashed.out) ≤ 1
at_most_one_restart_example =
    at_most_one_restart (record { rendered = crashed; page = handle 10 main_clicked crashed })
      (0 + (restarts (handle 10 main_clicked crashed).out - restarts crashed.out))
      (acted 10 at_crash 0 main_clicked (mounted at_crash refl) refl)

abbrev retrying : Mounted
retrying = record {
  rendered = record booting { is_retrying = true };
  page = record booting { is_retrying = true };
}

retry_without_event_hides_error_example : is_down (handle 900000 stall_due retrying.page) ≡ false
retry_without_event_hides_error_example =
    retry_without_event_hides_error retrying
      (record retrying { page = handle 900000 stall_due retrying.page }) refl refl
      (quiet_input 900000 stall_due start refl)

ko_is_there : resources "ko" ≡ some ko
unfolding resources
ko_is_there = refl

-- a wizard that has refused a password
abbrev refused : Wizard
refused = record initial_wizard { stage = password; pwd_error = pwd_min }

labels_are_translated_example :
    IsShownIfAny "ko" ko (some (phase_label booting))
    × IsShownIfAny "ko" ko (phase_sub true booting)
    × IsShownIfAny "ko" ko (some (step_title password))
    × IsShownIfAny "ko" ko (some (step_desc password))
    × IsShownIfAny "ko" ko (overlay_label idle)
    × IsShownIfAny "ko" ko (overlay_sub idle)
    × IsShownIfAny "ko" ko (message_key no_message)
    × IsShownIfAny "ko" ko (message_key pwd_min)
    × IsShownIfAny "ko" ko (message_key no_message)
labels_are_translated_example = labels_are_translated "ko" ko booting true refused ko_is_there
