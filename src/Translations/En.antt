-- ===== src/Translations/En.antt =====
-- The English texts: the object `en` of frontend/src/i18n/translations.ts.
mod Node
mod Settings
mod Wallet
mod Onboard
use lokinode.Translations.Table.{Table}
use mathlib.Core.List.{◌++◌}

unfoldable pub en : Table
unfolding Node.texts Settings.texts Wallet.texts Onboard.texts
en = Node.texts ++ Settings.texts ++ Wallet.texts ++ Onboard.texts
