-- ===== src/Language/Tests.antt =====
-- The texts of a few calls of `t`.
use lokinode.Common.{List, Text, [], codes, refl, some, ◌∷◌, ◌≡◌}
use lokinode.Translations.Zh.{zh}
use lokinode.Translations.Resources.{resources, tables, languages}
use lokinode.Language.{translate, mount, replace_from, placeholder}
use lokinode.Language.Complete.{IsComplete}
use lokinode.Language.Shown.{every_language-IsComplete}
use lokinode.Language.Kept.{
  Event, choose, reload, run, IsListed, OffersLanguages, language_survives_reload,
}

-- the languages of the buttons are those of `resources`
offered : lokinode.Translations.Table.keys languages ≡ lokinode.Translations.Table.keys tables
unfolding tables
offered = refl

zh_is_there : resources "zh" ≡ some zh
unfolding resources
zh_is_there = refl

abbrev three : List (Text × Text)
three = (codes "count", codes "3") ∷ []

translate-three : translate "zh" "logs.lines" three ≡ codes "3 行"
unfolding translate resources zh
translate-three = refl

every_language-IsComplete_example : IsComplete zh
every_language-IsComplete_example = every_language-IsComplete "zh" zh zh_is_there

-- a language that no table has
kept_member : (mount (some "toString")).lang ≡ "toString"
unfolding mount resources
kept_member = refl

dollars :
    replace_from (placeholder (codes "n")) (codes "$& $$ $' $1") 0 [] (codes "a{{n}}b")
    ≡ codes "a{{n}} $ b $1b"
unfolding replace_from
dollars = refl

abbrev chosen : List Event
chosen = choose "ko" ∷ reload ∷ choose "zh" ∷ []

language_survives_reload_example :
    IsListed (some "xx") (run chosen (mount (some "xx"))).lang
    × (mount (run chosen (mount (some "xx"))).node_lang ≡ run chosen (mount (some "xx")))
language_survives_reload_example =
    language_survives_reload (some "xx") chosen
      (unfold OffersLanguages resources in (refl, (refl, tt)))
