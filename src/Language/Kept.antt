-- ===== src/Language/Kept.antt =====
-- The language that is kept, frontend/src/i18n/context.tsx: the buttons that choose one, and a reload of
-- the page.
use lokinode.Common.{
  Bool, List, Option, String, [], false, if◌then◌else◌, inl, inr, is_some, none, refl, some, sym,
  true, ◌||◌, ◌∷◌, ◌≡◌, ◌⊎◌,
}
use lokinode.Translations.Resources.{resources}
use mathlib.Core.Path.{subst}
use lokinode.Language.{is_member, object_members, Provider, initial_lang, set_lang, mount}

pub data Event : Type 0 where
  choose : String → Event
  reload : Event

unfoldable pub step : Event → Provider → Provider
unfolding set_lang mount
step (choose l) p = set_lang l p
step reload p = mount p.node_lang

unfoldable pub run : List Event → Provider → Provider
unfolding step
run [] p = p
run (e ∷ es) p = run es (step e p)

-- the buttons offer the languages of the table
unfoldable pub OffersLanguages : List Event → Type 0
OffersLanguages [] = Unit
OffersLanguages (choose l ∷ es) = (is_some (resources l) ≡ true) × OffersLanguages es
OffersLanguages (reload ∷ es) = OffersLanguages es

-- `resources` has a table for the language, or the language is a name that every object has and that the
-- browser kept at the start
unfoldable pub IsListed : Option String → String → Type 0
IsListed saved l =
    (is_some (resources l) ≡ true) ⊎ ((saved ≡ some l) × (is_member l object_members ≡ true))

abbrev IsKept : Option String → Provider → Type 0
IsKept saved p = IsListed saved p.lang × (mount p.node_lang ≡ p)

en_is_there : is_some (resources "en") ≡ true
unfolding resources
en_is_there = refl

saved_or_en :
    (l : String) (a b : Bool)
    → is_some (resources l) ≡ a
    → is_member l object_members ≡ b
    → IsListed (some l) (if a || b then l else "en")
unfolding IsListed
saved_or_en l true b h k = inl h
saved_or_en l false true h k = inr (refl, k)
saved_or_en l false false h k = inl en_is_there

initial_lang-IsListed : (saved : Option String) → IsListed saved (initial_lang saved)
unfolding IsListed initial_lang
initial_lang-IsListed none = inl en_is_there
initial_lang-IsListed (some l) =
    saved_or_en l (is_some (resources l)) (is_member l object_members) refl refl

mount-IsKept : (saved : Option String) → IsKept saved (mount saved)
unfolding mount
mount-IsKept saved = (initial_lang-IsListed saved, refl)

set_lang-IsKept :
    (saved : Option String) (l : String) (p : Provider)
    → is_some (resources l) ≡ true
    → IsKept saved (set_lang l p)
unfolding IsListed set_lang mount initial_lang
set_lang-IsKept saved l p h = (inl h, rw h refl)

run-IsKept :
    (saved : Option String) (es : List Event) (p : Provider)
    → OffersLanguages es
    → IsKept saved p
    → IsKept saved (run es p)
unfolding run step OffersLanguages
run-IsKept saved [] p o k = k
run-IsKept saved (choose l ∷ es) p o k =
    run-IsKept saved es (set_lang l p) o.1 (set_lang-IsKept saved l p o.0)
run-IsKept saved (reload ∷ es) p o k =
    run-IsKept saved es (mount p.node_lang) o (subst (IsKept saved) (sym k.1) k)

-- Whatever the browser kept at the start, and whatever languages of `resources` are chosen in whatever
-- order with reloads of the page in between, a reload shows the language again that is shown, and
-- `resources` has a table for it, unless it was kept at the start and is a name that every object of
-- JavaScript has.
pub language_survives_reload :
    (saved : Option String) (es : List Event)
    → OffersLanguages es
    → IsListed saved (run es (mount saved)).lang
      × (mount (run es (mount saved)).node_lang ≡ run es (mount saved))
language_survives_reload saved es o = run-IsKept saved es (mount saved) o (mount-IsKept saved)
