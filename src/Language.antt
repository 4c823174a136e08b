-- ===== src/Language.antt =====
-- The lookup of translations, frontend/src/i18n/context.tsx. A name that every object of JavaScript has,
-- such as `toString`, passes for a language at the start, but not for a key: all keys have a dot.
mod Template
mod Complete
pub mod Shown
mod Kept
pub mod Labels
mod Tests
mod Fill
use lokinode.Common.{
  Bool, List, Option, String, Text, [], codes, drop, false, if◌then◌else◌, is_some, length, none,
  or_else, some, starts_with, str_eq, suc, true, zero, ℕ, ◌++◌, ◌-◌, ◌==◌, ◌||◌, ◌∷◌,
}
use lokinode.Translations.Table.{lookup}
use lokinode.Translations.Resources.{resources}

-- the text that stands for a match: in `v` the pattern `$$` is a dollar, `$&` the match, `` $` `` and `$'`
-- what comes before and after it; other dollars are taken as they are. `dollar` tells that one is pending.
unfoldable pub expand : (match before after : Text) → Bool → Text → Text
expand match before after dollar [] = if dollar then 36 ∷ [] else []
expand match before after false (c ∷ v) = elim (c == 36) [
  | true ↦ expand match before after true v
  | false ↦ c ∷ expand match before after false v
]
expand match before after true (c ∷ v) =
    let rest = expand match before after false v in
    if c == 36
    then 36 ∷ rest
    else if c == 38
    then match ++ rest
    else if c == 96
    then before ++ rest
    else if c == 39
    then after ++ rest
    else 36 ∷ c ∷ rest

-- `s.replace(new RegExp(p, 'g'), v)` for a text `p` that is not empty, where `before` comes before `s` and
-- the next `skip` characters belong to the last match
unfoldable pub replace_from : Text → Text → ℕ → (before s : Text) → Text
unfolding starts_with expand
replace_from p v skip before [] = []
replace_from p v (suc skip) before (c ∷ s) = replace_from p v skip (before ++ c ∷ []) s
replace_from p v zero before (c ∷ s) = elim (starts_with (c ∷ s) p) [
  | true ↦
      expand p before (drop (length p) (c ∷ s)) false v
      ++ replace_from p v (length p - 1) (before ++ c ∷ []) s
  | false ↦ c ∷ replace_from p v zero (before ++ c ∷ []) s
]

abbrev pub placeholder : Text → Text
placeholder k = codes "{{" ++ k ++ codes "}}"

unfoldable pub substitute : List (Text × Text) → Text → Text
unfolding replace_from
substitute [] str = str
substitute ((k, v) ∷ params) str = substitute params (replace_from (placeholder k) v 0 [] str)

-- `a || b`
abbrev pub or_text : String → String → String
or_text a b = if str_eq a "" then b else a

-- the names of `Object.prototype`, under which `resources` has a value although it has no table
abbrev pub object_members : List String
object_members =
    "constructor" ∷ "toString" ∷ "toLocaleString" ∷ "valueOf" ∷ "hasOwnProperty" ∷ "isPrototypeOf"
    ∷ "propertyIsEnumerable" ∷ "__proto__" ∷ "__defineGetter__" ∷ "__defineSetter__"
    ∷ "__lookupGetter__" ∷ "__lookupSetter__" ∷ []

unfoldable pub is_member : String → List String → Bool
is_member k [] = false
is_member k (name ∷ names) = str_eq k name || is_member k names

-- `resources[saved]` is truthy
abbrev pub has_resource : String → Bool
has_resource saved = is_some (resources saved) || is_member saved object_members

-- the language that is kept, `none` if there is none
unfoldable pub initial_lang : Option String → String
unfolding is_member
initial_lang none = "en"
initial_lang (some saved) = if has_resource saved then saved else "en"

-- `resources[lang][key]`, the empty text where there is none
unfoldable pub entry : String → String → String
entry lang key = or_else (lookup (or_else (resources lang) []) key) ""

-- `t`
unfoldable pub translate : String → String → List (Text × Text) → Text
unfolding substitute entry
translate lang key params =
    substitute params (codes (or_text (or_text (entry lang key) (entry "en" key)) key))

-- the provider: the language shown and the one kept
pub record Provider : Type 0 where
  pub lang : String
  pub node_lang : Option String

unfoldable pub set_lang : String → Provider → Provider
set_lang new_lang p = record { lang = new_lang; node_lang = some new_lang }

-- the provider at the start, with what the browser kept
unfoldable pub mount : Option String → Provider
unfolding initial_lang
mount saved = record { lang = initial_lang saved; node_lang = saved }
