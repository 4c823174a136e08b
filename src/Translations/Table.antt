-- ===== src/Translations/Table.antt =====
-- An object of texts of frontend/src/i18n/translations.ts: its entries in their order.
use lokinode.Common.{List, Option, String, [], if◌then◌else◌, none, some, str_eq, ◌∷◌}

abbrev pub Table : Type 0
Table = List (String × String)

module _ {ℓ} {A : Type ℓ} where
  -- `object[key]`, `none` where the object has no such key
  unfoldable pub lookup : List (String × A) → String → Option A
  lookup [] key = none
  lookup ((k, a) ∷ rest) key = if str_eq k key then some a else lookup rest key

  abbrev pub keys : List (String × A) → List String
  keys [] = []
  keys ((k, a) ∷ rest) = k ∷ keys rest
