-- ===== src/Translations/En/Onboard.antt =====
-- The English texts of the header and the wizard, lines 341 to 443 of frontend/src/i18n/translations.ts.
use lokinode.Translations.Table.{Table}
use mathlib.Core.List.{[], ◌∷◌}

unfoldable pub texts : Table
texts =
    ("header.help", "Help")
    ∷ ("header.settings", "Settings")
    ∷ ("header.minimize", "Minimize")
    ∷ ("header.close", "Close")
    ∷ ("header.update_available", "Update available: {{version}}")
    ∷ ("node.errors.restart_failed", "Restart failed")
    ∷ ("node.errors.stop_failed", "Stop failed")
    ∷ ("node.errors.start_timeout", "Start timed out — check logs for details.")
    ∷ ("node.errors.lock_timeout_title", "Lock timed out")
    ∷ (
      "node.errors.lock_timeout_desc",
      "Daemon did not return to locked state. Check logs or stop the node.",
    )
    ∷ ("node.errors.another_instance", "Another Lokinode window is already open. Close it first.")
    ∷ ("node.errors.port_conflict", "Port conflict — another process is using the same port.")
    ∷ ("node.errors.rate_limited", "Too many attempts — please wait a moment.")
    ∷ ("node.errors.daemon_not_ready", "Daemon is not ready.")
    ∷ (
      "node.errors.missing_files",
      "Node data files are missing — the directory may have been moved or deleted.",
    )
    ∷ (
      "node.errors.corrupt_cert",
      "TLS certificate is corrupted — the node may need to be recreated.",
    )
    ∷ (
      "node.errors.connection_refused",
      "Could not connect to the node daemon — check for port conflicts.",
    )
    ∷ ("node.errors.timeout", "Node daemon timed out during startup.")
    ∷ ("node.errors.neutrino_corrupted", "Neutrino headers corrupted — tap to clear and restart.")
    ∷ ("node.errors.recover_failed", "Recovery failed")
    ∷ ("node.status.no_wallet", "Wallet Missing")
    ∷ ("node.status.sub.no_wallet", "Wallet database not found. Go back and recreate this node.")
    ∷ ("common.back_home", "Back to Home")
    ∷ ("language.label", "Language")
    ∷ ("onboard.back", "Back")
    ∷ ("onboard.cancel", "Cancel")
    ∷ ("onboard.next", "Continue")
    ∷ ("onboard.step_x_of_y", "Step {{x}} of {{y}}")
    ∷ ("onboard.node.title", "Name your node")
    ∷ ("onboard.node.desc", "Give your node an identity and choose its environment location.")
    ∷ ("onboard.node.alias", "Node alias")
    ∷ ("onboard.node.alias_ph", "My Lokinode")
    ∷ ("onboard.node.dir", "Node environment")
    ∷ ("onboard.node.advanced", "Advanced network settings")
    ∷ ("onboard.wallet.title", "Choose your wallet")
    ∷ ("onboard.wallet.desc", "Start fresh or bring an existing wallet along.")
    ∷ ("onboard.wallet.create", "Create a new wallet")
    ∷ ("onboard.wallet.create_sub", "Generate a brand-new 24-word recovery phrase.")
    ∷ ("onboard.wallet.restore", "Restore an existing wallet")
    ∷ ("onboard.wallet.restore_sub", "From a 24-word seed or a hex private key.")
    ∷ ("onboard.password.title", "Set a wallet password")
    ∷ ("onboard.password.desc", "You'll enter this every time the node starts.")
    ∷ ("onboard.password.label", "Password")
    ∷ ("onboard.password.confirm", "Confirm password")
    ∷ ("onboard.password.warn", "There's no password recovery. Store it somewhere safe.")
    ∷ ("onboard.restore.title", "Restore your wallet")
    ∷ ("onboard.restore.desc", "Paste your recovery material — we never send it anywhere.")
    ∷ ("onboard.restore.mnemonic", "Seed phrase")
    ∷ ("onboard.restore.hex", "Private key")
    ∷ ("onboard.restore.mnemonic_label", "Your 24-word recovery phrase")
    ∷ ("onboard.restore.hex_label", "Your private key (hex)")
    ∷ ("onboard.review.title", "Ready to launch")
    ∷ ("onboard.review.desc", "Take one last look, then power it on.")
    ∷ (
      "onboard.review.sync_warn",
      "Your first launch will synchronize with the blockchain. This may take some time depending on your connection.",
    )
    ∷ ("onboard.review.alias", "Alias")
    ∷ ("onboard.review.folder", "Folder")
    ∷ ("onboard.review.wallet", "Wallet")
    ∷ ("onboard.review.wallet_create", "New wallet")
    ∷ ("onboard.review.wallet_mnemonic", "Restored from seed phrase")
    ∷ ("onboard.review.wallet_hex", "Restored from hex")
    ∷ ("onboard.review.network", "Network")
    ∷ ("onboard.review.start", "Launch node")
    ∷ (
      "onboard.review.hint_create",
      "We'll boot the daemon, generate your recovery seed, and unlock the wallet.",
    )
    ∷ (
      "onboard.review.hint_restore",
      "We'll boot the daemon and restore your wallet — this can take a few minutes.",
    )
    ∷ ("onboard.seed.title", "Save your recovery seed")
    ∷ ("onboard.seed.desc", "These 24 words restore your wallet. Anyone with them owns your coins.")
    ∷ (
      "onboard.seed.warn",
      "Never screenshot or store these words online. Write them down on paper and keep them offline.",
    )
    ∷ ("onboard.seed.ack", "I've written down all 24 words in order.")
    ∷ ("onboard.launch.verifying", "Verifying configuration…")
    ∷ ("onboard.launch.verifying_sub", "Making sure everything is ready for the daemon.")
    ∷ ("onboard.launch.starting", "Starting the daemon")
    ∷ ("onboard.launch.starting_sub", "Spinning up the flnd process.")
    ∷ ("onboard.launch.waiting", "Booting up")
    ∷ ("onboard.launch.waiting_sub", "Waiting for the node to come online…")
    ∷ ("onboard.launch.reveal_title", "Your recovery seed")
    ∷ (
      "onboard.launch.reveal_desc",
      "Write these words down now — this is the only time we show them.",
    )
    ∷ ("onboard.launch.continue_init", "Create my wallet")
    ∷ ("onboard.launch.initializing", "Creating your wallet")
    ∷ ("onboard.launch.initializing_sub", "Encrypting the wallet and preparing the node.")
    ∷ ("onboard.launch.done", "Ready")
    ∷ ("onboard.launch.error", "Launch failed")
    ∷ ("onboard.launch.dismiss", "Dismiss")
    ∷ ("onboard.errors.pwd_min", "Password must be at least 8 characters.")
    ∷ ("onboard.errors.pwd_match", "Passwords don't match.")
    ∷ ("onboard.errors.mnemonic_len", "Phrase must be exactly 24 words.")
    ∷ ("onboard.errors.hex_required", "Enter a hex private key to restore.")
    ∷ (
      "onboard.errors.wallet_exists",
      "A wallet already exists in this folder. Pick an empty folder or restore into it.",
    )
    ∷ ("onboard.errors.seed_gen_failed", "Failed to generate recovery phrase. Please try again.")
    ∷ []
