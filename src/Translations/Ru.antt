-- ===== src/Translations/Ru.antt =====
-- The Russian texts: the object `ru` of frontend/src/i18n/translations.ts.
mod Node
mod Settings
mod Wallet
mod Onboard
use lokinode.Translations.Table.{Table}
use mathlib.Core.List.{◌++◌}

unfoldable pub ru : Table
unfolding Node.texts Settings.texts Wallet.texts Onboard.texts
ru = Node.texts ++ Settings.texts ++ Wallet.texts ++ Onboard.texts
