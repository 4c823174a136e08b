-- ===== src/Node/Labels.antt =====
-- The texts of the node's state in frontend/src/pages/Node/Node.tsx as keys of
-- frontend/src/i18n/translations.ts.
use lokinode.Common.{Bool, false, if◌then◌else◌, refl, some, true, ◌≡◌}
use lokinode.Translations.Table.{lookup}
use lokinode.Language.Shown.{IsKey}
use lokinode.Translations.En.{en}
use lokinode.Daemon.{
  DaemonState, ready, block, tx, locked, no_wallet, down, starting, init, state_none, unset,
  unlocked, syncing, scanning, other,
}
use lokinode.Node.Page.{Page}
use lokinode.Node.Texts.{phase_label, phase_sub, syncing_label_key, syncing_sub}
use lokinode.Node.Derived.{
  Phase, SyncingLabel, phase_key, label_while_syncing, state, neutrino_corrupted, active, stopping,
  locking, restarting, down_phase, no_wallet_phase, locked_phase, syncing_phase, recovering_label,
  starting_label, syncing_label,
}

syncing_label_key-IsKey : (l : SyncingLabel) → IsKey (some (syncing_label_key l))
unfolding IsKey lookup en
syncing_label_key-IsKey recovering_label = refl
syncing_label_key-IsKey starting_label = refl
syncing_label_key-IsKey syncing_label = refl

syncing_sub-IsKey : (d : DaemonState) → IsKey (some (syncing_sub d))
unfolding IsKey lookup en
syncing_sub-IsKey ready = refl
syncing_sub-IsKey block = refl
syncing_sub-IsKey tx = refl
syncing_sub-IsKey locked = refl
syncing_sub-IsKey no_wallet = refl
syncing_sub-IsKey down = refl
syncing_sub-IsKey starting = refl
syncing_sub-IsKey init = refl
syncing_sub-IsKey state_none = refl
syncing_sub-IsKey unset = refl
syncing_sub-IsKey unlocked = refl
syncing_sub-IsKey syncing = refl
syncing_sub-IsKey scanning = refl
syncing_sub-IsKey (other s) = refl

pub phase_label-IsKey : (p : Page) (k : Phase) → phase_key p ≡ k → IsKey (some (phase_label p))
unfolding IsKey lookup en phase_label
phase_label-IsKey p stopping e = rw (IsKey, phase_label, e) refl
phase_label-IsKey p locking e = rw (IsKey, phase_label, e) refl
phase_label-IsKey p restarting e = rw (IsKey, phase_label, e) refl
phase_label-IsKey p down_phase e = rw (IsKey, phase_label, e) refl
phase_label-IsKey p no_wallet_phase e = rw (IsKey, phase_label, e) refl
phase_label-IsKey p locked_phase e = rw (IsKey, phase_label, e) refl
phase_label-IsKey p active e = rw (IsKey, phase_label, e) refl
phase_label-IsKey p syncing_phase e =
    rw (IsKey, phase_label, e) (syncing_label_key-IsKey (label_while_syncing p))

slow-IsKey :
    (b : Bool) (d : DaemonState) → IsKey (some (if b then "node.sync.slow" else syncing_sub d))
unfolding IsKey lookup en
slow-IsKey true d = refl
slow-IsKey false d = syncing_sub-IsKey d

down-IsKey :
    (b : Bool) → IsKey (some (if b then "node.status.sub.recover" else "node.status.sub.retrying"))
unfolding IsKey lookup en
down-IsKey true = refl
down-IsKey false = refl

pub phase_sub-IsKey : (b : Bool) (p : Page) (k : Phase) → phase_key p ≡ k → IsKey (phase_sub b p)
unfolding IsKey lookup en phase_sub
phase_sub-IsKey b p stopping e = rw (IsKey, phase_sub, e) refl
phase_sub-IsKey b p locking e = rw (IsKey, phase_sub, e) refl
phase_sub-IsKey b p restarting e = rw (IsKey, phase_sub, e) refl
phase_sub-IsKey b p down_phase e = rw (IsKey, phase_sub, e) (down-IsKey (neutrino_corrupted p))
phase_sub-IsKey b p no_wallet_phase e = rw (IsKey, phase_sub, e) refl
phase_sub-IsKey b p locked_phase e = rw (IsKey, phase_sub, e) refl
phase_sub-IsKey b p active e = rw (IsKey, phase_sub, e) tt
phase_sub-IsKey b p syncing_phase e = rw (IsKey, phase_sub, e) (slow-IsKey b (state p))
