-- ===== src/Node/Texts.antt =====
-- The texts of each phase in frontend/src/pages/Node/Node.tsx, by their translation keys, and the numbers of
-- the progress bar below them.
use lokinode.Common.{Bool, Option, String, if◌then◌else◌, ltb, none, or_else, some, ℕ}
use lokinode.Daemon.{
  DaemonState, InfoResponse, StateEvent, init, state_none, unlocked, syncing, scanning, tx,
}
use lokinode.Node.Page.{Page}
use lokinode.Node.Derived.{
  SyncingLabel, active, down_phase, label_while_syncing, locked_phase, locking, neutrino_corrupted,
  no_wallet_phase, phase_key, recovering_label, restarting, starting_label, state, stopping,
  syncing_label, syncing_phase,
}

abbrev pub syncing_label_key : SyncingLabel → String
syncing_label_key recovering_label = "node.status.recovering"
syncing_label_key starting_label = "node.status.starting"
syncing_label_key syncing_label = "node.status.syncing"

-- `syncingSub[state] ?? t('node.sync.default')`
abbrev pub syncing_sub : DaemonState → String
syncing_sub init = "node.sync.init"
syncing_sub state_none = "node.sync.none"
syncing_sub unlocked = "node.sync.unlocked"
syncing_sub syncing = "node.sync.syncing"
syncing_sub scanning = "node.sync.scanning"
syncing_sub tx = "node.sync.tx"
syncing_sub _ = "node.sync.default"

unfoldable pub phase_label : Page → String
unfolding phase_key label_while_syncing
phase_label p = elim (phase_key p) [
  | stopping ↦ "node.stopping"
  | locking ↦ "node.status.locking_wallet"
  | restarting ↦ "node.status.restarting"
  | down_phase ↦ "node.status.error"
  | no_wallet_phase ↦ "node.status.no_wallet"
  | locked_phase ↦ "node.status.locked"
  | active ↦ "node.status.active"
  | syncing_phase ↦ syncing_label_key (label_while_syncing p)
]

-- the line below, where an active node shows its uptime
unfoldable pub phase_sub : Bool → Page → Option String
unfolding phase_key
phase_sub sync_slow p = elim (phase_key p) [
  | stopping ↦ some "node.status.sub.stopping"
  | locking ↦ some "node.status.sub.locking"
  | restarting ↦ some "node.status.sub.restarting"
  | down_phase ↦
      some (if neutrino_corrupted p then "node.status.sub.recover" else "node.status.sub.retrying")
  | no_wallet_phase ↦ some "node.status.sub.no_wallet"
  | locked_phase ↦ some "node.status.sub.locked"
  | active ↦ none
  | syncing_phase ↦ some (if sync_slow then "node.sync.slow" else syncing_sub (state p))
]

abbrev pub event_tip : Option StateEvent → Option ℕ
event_tip none = none
event_tip (some e) = e.mempool_height

abbrev pub event_height : Option StateEvent → Option ℕ
event_height none = none
event_height (some e) = e.block_height

abbrev pub event_timestamp : Option StateEvent → Option ℕ
event_timestamp none = none
event_timestamp (some e) = e.best_header_timestamp

abbrev pub info_number : (InfoResponse → ℕ) → Option InfoResponse → ℕ
info_number f none = 0
info_number f (some i) = f i

unfoldable pub tip : Page → ℕ
tip p = or_else (event_tip p.event) (info_number (λ i. i.mempool_height) p.info)

unfoldable pub current_height : Page → ℕ
current_height p = or_else (event_height p.event) (info_number (λ i. i.block_height) p.info)

-- `tsRef.current`, which keeps the last time stamp that came
unfoldable pub keep_timestamp : Page → ℕ → ℕ
keep_timestamp p ts =
    let raw =
      or_else (event_timestamp p.event) (info_number (λ i. i.best_header_timestamp) p.info) in
    if ltb 0 raw then raw else ts
