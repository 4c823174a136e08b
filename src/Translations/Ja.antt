-- ===== src/Translations/Ja.antt =====
-- The Japanese texts: the object `ja` of frontend/src/i18n/translations.ts.
mod Node
mod Settings
mod Wallet
mod Onboard
use lokinode.Translations.Table.{Table}
use mathlib.Core.List.{◌++◌}

unfoldable pub ja : Table
unfolding Node.texts Settings.texts Wallet.texts Onboard.texts
ja = Node.texts ++ Settings.texts ++ Wallet.texts ++ Onboard.texts
