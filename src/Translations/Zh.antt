-- ===== src/Translations/Zh.antt =====
-- The Chinese texts: the object `zh` of frontend/src/i18n/translations.ts.
mod Node
mod Settings
mod Wallet
mod Onboard
use lokinode.Translations.Table.{Table}
use mathlib.Core.List.{◌++◌}

unfoldable pub zh : Table
unfolding Node.texts Settings.texts Wallet.texts Onboard.texts
zh = Node.texts ++ Settings.texts ++ Wallet.texts ++ Onboard.texts
