-- ===== src/Translations/Ko.antt =====
-- The Korean texts: the object `ko` of frontend/src/i18n/translations.ts.
mod Node
mod Settings
mod Wallet
mod Onboard
use lokinode.Translations.Table.{Table}
use mathlib.Core.List.{◌++◌}

unfoldable pub ko : Table
unfolding Node.texts Settings.texts Wallet.texts Onboard.texts
ko = Node.texts ++ Settings.texts ++ Wallet.texts ++ Onboard.texts
