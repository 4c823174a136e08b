-- ===== src/Translations.antt =====
-- The translations of the interface, frontend/src/i18n/translations.ts: a module per language, with a
-- module per part of its object. The texts stand in the order of the file.
pub mod Table
pub mod Resources
pub mod En
pub mod Ru
pub mod Zh
pub mod Es
pub mod Ja
pub mod Ko
