-- ===== src/Translations/En/Wallet.antt =====
-- The English texts of the views of the wallet, lines 223 to 339 of frontend/src/i18n/translations.ts.
use lokinode.Translations.Table.{Table}
use mathlib.Core.List.{[], ◌∷◌}

unfoldable pub texts : Table
texts =
    ("send.total_cost", "Total Cost")
    ∷ ("send.confirm_send", "Confirm & Send")
    ∷ ("send.recipient", "Recipient address")
    ∷ ("send.amount", "Amount (FLC)")
    ∷ ("send.available", "Available: {{amount}} FLC")
    ∷ ("send.fee_speed", "Fee speed")
    ∷ ("send.economy", "Economy")
    ∷ ("send.standard", "Standard")
    ∷ ("send.fast", "Fast")
    ∷ ("send.next", "Next")
    ∷ ("send.back", "Back")
    ∷ ("send.review", "Review")
    ∷ ("send.estimating", "Estimating…")
    ∷ ("send.confirm_title", "Confirm transaction")
    ∷ ("send.to", "To")
    ∷ ("send.amount_label", "Amount")
    ∷ ("send.fee_rate", "Fee rate")
    ∷ ("send.est_fee", "Est. fee")
    ∷ ("send.balance_after", "Balance after")
    ∷ ("send.coins", "Send coins")
    ∷ ("send.sending", "Sending…")
    ∷ ("send.success", "Sent!")
    ∷ ("send.errors.address", "Address is required")
    ∷ ("send.errors.amount", "Invalid amount")
    ∷ ("send.errors.fee", "Could not estimate fee")
    ∷ ("send.errors.failed", "Send failed")
    ∷ ("send.address_ph", "flc1q…")
    ∷ ("send.address_first", "Please enter a recipient address first")
    ∷ ("send.amount_ph", "0.00000000")
    ∷ ("send.review_title", "Review Transaction")
    ∷ ("send.sending_label", "Sending")
    ∷ ("send.network_fee", "Network Fee")
    ∷ ("send.arrival_est", "Est. arrival: ~{{time}} mins")
    ∷ ("send.calculating", "Calculating…")
    ∷ ("send.errors.exceeds_balance", "Amount exceeds your balance")
    ∷ ("send.errors.leave_fee_room", "Amount too high — leave room for the fee (~{{fee}} FLC)")
    ∷ ("history.empty", "No transactions yet")
    ∷ ("history.load_more", "Load more ({{count}} remaining)")
    ∷ ("history.unconfirmed", "Unconfirmed")
    ∷ ("history.conf", "{{count}} conf")
    ∷ ("about.version", "Version")
    ∷ ("about.latest", "Latest")
    ∷ ("about.latest_badge", "latest")
    ∷ ("about.download", "Download update")
    ∷ ("about.github", "View on GitHub")
    ∷ ("update.title", "Update available")
    ∷ ("update.body", "Version {{version}} is ready with security improvements and bug fixes.")
    ∷ ("update.later", "Later")
    ∷ ("update.now", "Update now")
    ∷ ("wallet.setup.title", "Wallet setup")
    ∷ ("wallet.setup.new", "New wallet")
    ∷ ("wallet.setup.mnemonic", "Mnemonic")
    ∷ ("wallet.setup.private", "Private key")
    ∷ ("wallet.pwd.title", "Set wallet password")
    ∷ ("wallet.pwd.label", "Wallet password")
    ∷ ("wallet.pwd.confirm", "Confirm password")
    ∷ ("wallet.pwd.repeat_ph", "Repeat password")
    ∷ ("wallet.new.title", "Extra protection")
    ∷ ("wallet.new.optional", "(optional)")
    ∷ ("wallet.new.seed_pwd", "Seed passphrase")
    ∷ ("wallet.new.seed_pwd_ph", "Optional — leave empty for none")
    ∷ ("wallet.new.confirm_pwd", "Confirm passphrase")
    ∷ ("wallet.new.confirm_pwd_ph", "Repeat passphrase")
    ∷ ("wallet.new.generate", "Generate wallet")
    ∷ ("wallet.new.recovery_title", "Recovery phrase")
    ∷ (
      "wallet.new.recovery_desc",
      "Write these 24 words down and keep them safe. They are the only way to recover your wallet.",
    )
    ∷ ("wallet.new.saved_btn", "I've saved my phrase")
    ∷ ("wallet.new.mismatch", "Passphrases do not match")
    ∷ ("wallet.new.error", "Wallet error")
    ∷ ("wallet.import.recovery", "Recovery phrase")
    ∷ ("wallet.import.recovery_ph", "Enter your 24 words separated by spaces")
    ∷ ("wallet.import.seed_pwd", "Seed passphrase (optional)")
    ∷ ("wallet.import.seed_pwd_ph", "Optional — leave empty for none")
    ∷ ("wallet.import.restore", "Restore wallet")
    ∷ ("wallet.import.error_24words", "Must be exactly 24 words")
    ∷ ("wallet.import.error", "Import error")
    ∷ ("wallet.private.label", "Private key")
    ∷ ("wallet.private.ph", "e9860a33a39e80c427382d619946808f5d75571694f6c4d7e9f3b5c777d0a7a3")
    ∷ ("wallet.errors.key_required", "Private key required")
    ∷ ("wallet.mnemonic.notice", "Important security notice")
    ∷ ("wallet.mnemonic.ensure", "Please ensure you have safely backed up your mnemonic phrase.")
    ∷ ("wallet.mnemonic.point1", "This is your ONLY chance to backup these words")
    ∷ (
      "wallet.mnemonic.point2",
      "Without this backup, you will not be able to recover your wallet if lost",
    )
    ∷ (
      "wallet.mnemonic.point3",
      "Store this backup in a secure location, never share it with anyone",
    )
    ∷ ("wallet.mnemonic.footer", "Once confirmed, you will not see these words again")
    ∷ ("wallet.mnemonic.back", "Go back")
    ∷ ("wallet.mnemonic.confirm", "I've backed up my mnemonic")
    ∷ ("common.info", "Information")
    ∷ ("common.close", "Close")
    ∷ ("common.apply", "Apply")
    ∷ ("common.save", "Save")
    ∷ ("common.copy", "Copy")
    ∷ ("common.copied", "Copied")
    ∷ ("common.processing", "Processing…")
    ∷ ("common.error", "Error")
    ∷ ("common.continue", "Continue")
    ∷ []
