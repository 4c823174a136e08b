-- ===== src/Translations/Es.antt =====
-- The Spanish texts: the object `es` of frontend/src/i18n/translations.ts.
mod Node
mod Settings
mod Wallet
mod Onboard
use lokinode.Translations.Table.{Table}
use mathlib.Core.List.{◌++◌}

unfoldable pub es : Table
unfolding Node.texts Settings.texts Wallet.texts Onboard.texts
es = Node.texts ++ Settings.texts ++ Wallet.texts ++ Onboard.texts
