-- ===== src/Node/Derived.antt =====
-- What a render of the page derives from its state.
use lokinode.Common.{
  Bool, Option, false, if◌then◌else◌, is_some, none, not, or_else, some, true, ◌&&◌, ◌||◌,
}
use lokinode.Daemon.{
  DaemonState, StateEvent, InfoResponse, ready, block, tx, locked, no_wallet, down, starting, init,
  state_none, unset,
}
use lokinode.Node.Page.{Page}

-- `event?.state ?? info?.state ?? ''`
abbrev pub first_state : Option StateEvent → Option InfoResponse → DaemonState
first_state (some e) info = e.state
first_state none (some i) = i.state
first_state none none = unset

abbrev pub first_running : Option StateEvent → Option InfoResponse → Bool
first_running (some e) info = e.node_running
first_running none (some i) = i.node_running
first_running none none = false

abbrev pub event_corrupted : Option StateEvent → Option Bool
event_corrupted none = none
event_corrupted (some e) = e.neutrino_corrupted

abbrev pub info_corrupted : Option InfoResponse → Option Bool
info_corrupted none = none
info_corrupted (some i) = i.neutrino_corrupted

abbrev pub state : Page → DaemonState
state p = first_state p.event p.info

abbrev pub node_running : Page → Bool
node_running p = first_running p.event p.info

-- `state === STATUS_READY || state === STATUS_BLOCK || state === STATUS_TX`
abbrev pub is_live : DaemonState → Bool
is_live ready = true
is_live block = true
is_live tx = true
is_live _ = false

abbrev pub is_locked_state : DaemonState → Bool
is_locked_state locked = true
is_locked_state _ = false

abbrev pub is_no_wallet_state : DaemonState → Bool
is_no_wallet_state no_wallet = true
is_no_wallet_state _ = false

abbrev pub is_down_state : DaemonState → Bool
is_down_state down = true
is_down_state _ = false

-- `BOOT_STATES.has(state)`
abbrev pub is_boot_state : DaemonState → Bool
is_boot_state init = true
is_boot_state starting = true
is_boot_state state_none = true
is_boot_state unset = true
is_boot_state _ = false

abbrev pub is_active : Page → Bool
is_active p = not p.session.is_restarting && is_live (state p)

abbrev pub is_locked : Page → Bool
is_locked p = is_locked_state (state p)

abbrev pub is_no_wallet : Page → Bool
is_no_wallet p = is_no_wallet_state (state p)

abbrev pub neutrino_corrupted : Page → Bool
neutrino_corrupted p = or_else (event_corrupted p.event) (or_else (info_corrupted p.info) false)

-- the condition of the screen with the Retry button
unfoldable pub is_down : Page → Bool
is_down p =
    (is_down_state (state p) || p.restart_stalled)
    && not p.session.user_stopped
    && not p.is_retrying
    && not p.is_recovering

pub data Phase : Type 0 where
  stopping locking restarting down_phase no_wallet_phase locked_phase active syncing_phase : Phase

unfoldable pub phase_key : Page → Phase
unfolding is_down
phase_key p =
    if p.is_stopping
    then stopping
    else if p.is_locking
    then locking
    else if p.session.is_restarting
    then restarting
    else if is_down p
    then down_phase
    else if is_no_wallet p
    then no_wallet_phase
    else if is_locked p
    then locked_phase
    else if is_active p
    then active
    else syncing_phase

abbrev pub is_syncing_phase : Phase → Bool
is_syncing_phase syncing_phase = true
is_syncing_phase _ = false

unfoldable pub syncing : Page → Bool
unfolding phase_key
syncing p = is_syncing_phase (phase_key p)

pub data SyncingLabel : Type 0 where
  recovering_label starting_label syncing_label : SyncingLabel

unfoldable pub label_while_syncing : Page → SyncingLabel
label_while_syncing p =
    if p.is_recovering
    then recovering_label
    else if is_boot_state (state p) || p.is_retrying
    then starting_label
    else syncing_label

unfoldable pub show_logs_link : Page → Bool
unfolding syncing is_down
show_logs_link p = (syncing p || is_down p) && not p.is_stopping && not p.session.is_restarting

unfoldable pub show_power_off : Page → Bool
unfolding syncing
show_power_off p =
    (syncing p || is_locked p)
    && not p.is_stopping
    && not p.is_locking
    && not p.session.is_restarting

unfoldable pub show_escape_hatch : Page → Bool
unfolding show_logs_link show_power_off
show_escape_hatch p = show_logs_link p || show_power_off p

-- the condition of the spinner, under which the main button is disabled
unfoldable pub is_loading : Page → Bool
unfolding syncing
is_loading p =
    p.is_locking || p.is_stopping || p.is_unlocking || syncing p || p.session.is_restarting

-- what the page returns: placeholders until /api/info has answered, the wallet of an active node, or the
-- main button with the links below it
pub data Screen : Type 0 where
  skeleton wallet_screen button_screen : Screen

unfoldable pub screen : Page → Screen
screen p =
    if not (is_some p.info) then skeleton else if is_active p then wallet_screen else button_screen
