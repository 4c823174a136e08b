-- ===== src/Translations/Resources.antt =====
-- The languages and their texts: `LANGUAGES` and `resources` of frontend/src/i18n/translations.ts.
use lokinode.Common.{List, Option, String, [], ◌∷◌}
use lokinode.Translations.Table.{Table, lookup}
use lokinode.Translations.En.{en}
use lokinode.Translations.Ru.{ru}
use lokinode.Translations.Zh.{zh}
use lokinode.Translations.Es.{es}
use lokinode.Translations.Ja.{ja}
use lokinode.Translations.Ko.{ko}

abbrev pub languages : Table
languages =
    ("en", "English")
    ∷ ("ru", "Русский")
    ∷ ("zh", "中文")
    ∷ ("es", "Español")
    ∷ ("ja", "日本語")
    ∷ ("ko", "한국어")
    ∷ []

unfoldable pub tables : List (String × Table)
tables = ("en", en) ∷ ("ru", ru) ∷ ("zh", zh) ∷ ("es", es) ∷ ("ja", ja) ∷ ("ko", ko) ∷ []

-- `resources[lang]`
unfoldable pub resources : String → Option Table
unfolding tables lookup
resources lang = lookup tables lang
