-- ===== src/Translations/En/Settings.antt =====
-- The English texts of the main page and the settings, lines 114 to 221 of frontend/src/i18n/translations.ts.
use lokinode.Translations.Table.{Table}
use mathlib.Core.List.{[], ◌∷◌}

unfoldable pub texts : Table
texts =
    ("main.title", "Configure Node")
    ∷ ("main.data_dir", "Node environment")
    ∷ ("main.starting", "Starting your node…")
    ∷ ("main.start", "Start Node")
    ∷ ("main.select_dir_title", "Locate Node Environment")
    ∷ ("main.loading_default", "Loading default directory...")
    ∷ ("main.existing.badge", "Existing node found")
    ∷ (
      "main.existing.desc",
      "A Flokicoin node environment was detected in this location. You can start it directly.",
    )
    ∷ ("main.existing.start", "Tap to start")
    ∷ ("main.configure", "Configure node settings")
    ∷ ("main.errors.alias", "Node alias is required")
    ∷ ("main.errors.alias_invalid", "Invalid alias name")
    ∷ ("main.errors.start_failed", "Start failed")
    ∷ ("main.errors.config_error", "Config error")
    ∷ ("main.errors.node_error", "Node error")
    ∷ ("main.errors.not_a_node", "No existing node found in this directory")
    ∷ ("main.errors.dir_error", "Directory selection error")
    ∷ ("main.default_alias", "MyLokinode")
    ∷ ("config.alias_default_hint", "Will use default name")
    ∷ ("main.create_new", "Create New Node")
    ∷ ("main.create_new_sub", "Initialize a fresh environment.")
    ∷ ("main.open_existing", "Open Existing Node")
    ∷ ("main.open_existing_sub", "Resume from an existing node environment.")
    ∷ ("main.browse_folder", "Choose a Folder")
    ∷ ("main.status.offline", "Node Offline")
    ∷ ("main.status.starting", "Starting")
    ∷ ("main.power_hint", "Tap to power on")
    ∷ ("main.power_hint_starting", "Initializing daemon...")
    ∷ ("config.alias", "Node alias")
    ∷ ("config.alias_ph", "e.g. MyLokinode")
    ∷ ("config.network", "Network settings")
    ∷ ("config.rest_cors", "REST CORS")
    ∷ ("config.rpc_listen", "RPC listen")
    ∷ ("config.rest_listen", "REST listen")
    ∷ ("settings.title", "Settings")
    ∷ ("security.title", "Security")
    ∷ ("security.section", "Change wallet password")
    ∷ ("security.current_pwd", "Current password")
    ∷ ("security.new_pwd", "New password")
    ∷ ("security.new_pwd_ph", "Min 8 characters")
    ∷ ("security.confirm_pwd", "Confirm new password")
    ∷ ("security.update", "Update password")
    ∷ ("security.updating", "Updating security settings...")
    ∷ ("security.update_sub", "Re-keying your wallet. This will take a moment.")
    ∷ ("security.updated", "Password updated successfully")
    ∷ ("security.updated_ok", "Password updated successfully")
    ∷ ("security.failed", "Failed to update password")
    ∷ (
      "security.stop_prompt",
      "Node must be stopped to update password. Stop it now and apply the update?",
    )
    ∷ ("security.update_failed", "Update failed")
    ∷ ("security.error.timeout", "Operation timed out while waiting for node to enter locked state")
    ∷ ("validation.required", "Required")
    ∷ ("validation.min8", "Min 8 characters")
    ∷ ("validation.no_match", "Does not match")
    ∷ ("validation.dir_required", "Environment location is required")
    ∷ ("validation.dir_not_empty", "Environment must be empty or new")
    ∷ ("validation.invalid_cors", "Must be a valid URL or *")
    ∷ ("validation.invalid_listen", "Invalid format (e.g., 0.0.0.0:10005)")
    ∷ ("network.public_node", "Public node")
    ∷ ("network.public_node_sub", "Accept incoming P2P connections and announce to the network")
    ∷ ("network.restart_hint", "Takes effect on next restart")
    ∷ ("network.restart_required", "A restart is required to apply your network changes.")
    ∷ ("network.restart_btn", "Apply & Restart")
    ∷ ("network.restarting", "Restarting...")
    ∷ ("network.restart.confirm", "Confirm Restart?")
    ∷ ("network.restart.confirm_action", "Click again to confirm restart")
    ∷ ("network.restart_sub", "Your node will be back online in a few seconds.")
    ∷ ("network.errors.invalid_config", "Configuration Issue")
    ∷ ("network.public_ip", "Public IP Address")
    ∷ ("network.public_ip_sub", "Your IP announced to peers. Default port 5521 is used if omitted.")
    ∷ ("network.public_ip_ph", "e.g. 203.0.113.42 or 203.0.113.42:5521")
    ∷ ("network.ip_error", "Invalid IP address")
    ∷ ("network.ip_missing", "No IP set — node will listen but won't be discoverable")
    ∷ ("network.group.identity", "Node identity")
    ∷ ("network.group.visibility", "Public visibility")
    ∷ ("network.group.endpoints", "Endpoints & CORS")
    ∷ ("network.group.credentials", "Credentials")
    ∷ ("network.cors", "REST CORS Origin")
    ∷ (
      "network.cors_sub",
      "Browser origin allowed to hit the REST API. Leave blank to disable CORS.",
    )
    ∷ ("network.cors_ph", "e.g. http://localhost:3000")
    ∷ ("network.pubkey", "Node Pubkey")
    ∷ ("network.grpc", "gRPC Endpoint")
    ∷ ("network.rest", "REST Endpoint")
    ∷ ("network.data_dir", "Node Environment")
    ∷ ("network.macaroon", "Admin Macaroon")
    ∷ ("network.tls", "TLS Certificate")
    ∷ ("network.hex_locked", "Available once unlocked")
    ∷ ("receive.title", "Receive FLC")
    ∷ ("receive.new_addr", "Generate new address")
    ∷ ("receive.copied", "Copied")
    ∷ ("receive.copy_desc", "Address copied to clipboard")
    ∷ ("receive.payment_received", "Payment received")
    ∷ ("receive.addr_type", "Address Type")
    ∷ ("receive.segwit", "SegWit")
    ∷ ("receive.taproot", "Taproot")
    ∷ []
