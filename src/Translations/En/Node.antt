-- ===== src/Translations/En/Node.antt =====
-- The English texts of the tabs and the pages of the node, lines 16 to 112 of frontend/src/i18n/translations.ts.
use lokinode.Translations.Table.{Table}
use mathlib.Core.List.{[], ◌∷◌}

unfoldable pub texts : Table
texts =
    ("tab.overview", "Overview")
    ∷ ("tab.history", "Transactions")
    ∷ ("tab.receive", "Receive")
    ∷ ("tab.send", "Send")
    ∷ ("tab.security", "Security")
    ∷ ("tab.network", "Network")
    ∷ ("tab.logs", "Logs")
    ∷ ("tab.about", "About")
    ∷ ("logs.live", "Live")
    ∷ ("logs.connecting", "Connecting…")
    ∷ ("logs.reconnecting", "Reconnecting…")
    ∷ ("logs.lines", "{{count}} lines")
    ∷ ("logs.offline", "Cannot reach log stream.")
    ∷ ("logs.waiting", "Waiting for log output…")
    ∷ ("logs.latest", "Latest")
    ∷ ("logs.title", "Node logs")
    ∷ ("node.balance", "Total Balance")
    ∷ ("node.connecting", "Connecting…")
    ∷ ("node.status.locked", "Locked")
    ∷ ("node.status.starting", "Starting")
    ∷ ("node.status.restarting", "Restarting")
    ∷ ("node.status.syncing", "Syncing")
    ∷ ("node.status.active", "Node Active")
    ∷ ("node.status.error", "Node Error")
    ∷ ("node.status.locking_wallet", "Locking wallet")
    ∷ ("node.status.sub.locked", "Tap to unlock wallet")
    ∷ ("node.status.sub.locking", "Restarting daemon · unlock will open shortly")
    ∷ ("node.status.sub.restarting", "Restarting daemon…")
    ∷ ("node.status.sub.stopping", "Waiting for daemon to exit…")
    ∷ ("node.status.sub.retrying", "Daemon stopped · tap to retry")
    ∷ ("node.status.sub.recover", "Daemon stopped · tap to recover")
    ∷ ("node.status.recovering", "Recovering…")
    ∷ ("node.sync.init", "Initializing daemon…")
    ∷ ("node.sync.none", "Starting up…")
    ∷ ("node.sync.unlocked", "Wallet unlocked, syncing…")
    ∷ ("node.sync.syncing", "Syncing blockchain…")
    ∷ ("node.sync.scanning", "Scanning wallet history…")
    ∷ ("node.sync.tx", "Processing transactions…")
    ∷ ("node.sync.default", "Connecting to chain…")
    ∷ ("node.sync.slow", "Taking longer than expected — open logs or stop the node")
    ∷ ("node.open_folder", "Open data folder")
    ∷ ("node.errors.open_folder_failed", "Could not open folder")
    ∷ ("node.stop", "Stop Node")
    ∷ ("node.stop.confirm", "Confirm stop?")
    ∷ ("node.power_off", "Power off")
    ∷ ("node.power_off.confirm", "Power off node?")
    ∷ ("node.stopping", "Stopping…")
    ∷ ("node.lock", "Lock Node")
    ∷ ("node.lock.confirm", "Confirm lock?")
    ∷ ("node.locking", "Locking…")
    ∷ ("node.lokihub", "LokiHub")
    ∷ ("node.stop_logs_hint", "View Live Logs")
    ∷ ("unlock.title", "Unlock wallet")
    ∷ ("unlock.subtitle", "Enter your passphrase to activate the node")
    ∷ ("unlock.placeholder", "Passphrase")
    ∷ ("unlock.button", "Unlock")
    ∷ ("unlock.loading", "Unlocking…")
    ∷ ("unlock.success", "Wallet unlocked")
    ∷ ("unlock.error.title", "Wrong password")
    ∷ ("unlock.error.desc", "Check your passphrase and try again.")
    ∷ ("overview.network", "Network")
    ∷ ("overview.alias", "Alias")
    ∷ ("overview.sync", "Sync")
    ∷ ("overview.synced", "Synced")
    ∷ ("overview.block", "Block")
    ∷ ("overview.last_block", "Last block {{time}}")
    ∷ ("overview.last_block_label", "Last block")
    ∷ ("overview.pubkey", "Pubkey")
    ∷ ("overview.data_dir", "Data folder")
    ∷ ("overview.confirmed", "Confirmed")
    ∷ ("overview.pending", "Pending")
    ∷ ("overview.locked", "Locked")
    ∷ ("time.seconds_ago", "{{n}}s ago")
    ∷ ("time.minutes_ago", "{{n}}m ago")
    ∷ ("time.hours_ago", "{{n}}h ago")
    ∷ ("time.days_ago", "{{n}}d ago")
    ∷ ("time.months_ago", "{{n}}mo ago")
    ∷ ("time.years_ago", "{{n}}y ago")
    ∷ []
