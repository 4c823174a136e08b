-- ===== src/Common/Keys.antt =====
-- Lists of texts as sets of keys: the test, the insertion at the end, the removal.
use Prim.Native.String.{String}
use mathlib.Core.Path.{◌≡◌, refl}
use mathlib.Core.Bool.{Bool, false, ◌||◌}
use mathlib.Core.List.{List, [], ◌∷◌, ◌++◌}
use native.Mathlib.Omega.{arith}
use text.Mathlib.Text.{◌==◌ as str_eq}
use lokinode.Common.Tests.{string_tests, if◌then◌else◌}

unfoldable pub has : String → List String → Bool
has k [] = false
has k (j ∷ ks) = str_eq j k || has k ks

-- without the first entry that is `k`
unfoldable pub erase : String → List String → List String
erase k [] = []
erase k (j ∷ ks) = if str_eq j k then ks else j ∷ erase k ks

abbrev pub IsDistinct : List String → Type 0
IsDistinct [] = Unit
IsDistinct (k ∷ ks) = (has k ks ≡ false) × IsDistinct ks

pub has-append :
    (k : String) (ks : List String) (j : String) → has k (ks ++ j ∷ []) ≡ (has k ks || str_eq j k)
unfolding has
has-append k [] j = ground arith
has-append k (i ∷ ks) j = ground (arith, has-append k ks j)

pub append-IsDistinct :
    (ks : List String) (k : String) → IsDistinct ks → has k ks ≡ false → IsDistinct (ks ++ k ∷ [])
unfolding has
append-IsDistinct [] k d h = (refl, tt)
append-IsDistinct (i ∷ ks) k d h =
    (grind (string_tests, has-append i ks k), append-IsDistinct ks k d.1 (ground arith))

pub has-erase_ne :
    (k j : String) (ks : List String) → str_eq j k ≡ false → has j (erase k ks) ≡ has j ks
unfolding has erase
has-erase_ne k j [] h = refl
has-erase_ne k j (i ∷ ks) h = grind (string_tests, has-erase_ne k j ks h)

pub has-erase-false :
    (k j : String) (ks : List String) → has j ks ≡ false → has j (erase k ks) ≡ false
unfolding has erase
has-erase-false k j [] h = refl
has-erase-false k j (i ∷ ks) h = ground (arith, has-erase-false k j ks)

pub erase-IsDistinct : (k : String) (ks : List String) → IsDistinct ks → IsDistinct (erase k ks)
unfolding erase
erase-IsDistinct k [] d = tt
erase-IsDistinct k (i ∷ ks) d =
    ground (arith, erase-IsDistinct k ks d.1, has-erase-false k i ks d.0)

-- in a set, a removed key is gone
pub has-erase_self : (k : String) (ks : List String) → IsDistinct ks → has k (erase k ks) ≡ false
unfolding has erase
has-erase_self k [] d = refl
has-erase_self k (i ∷ ks) d = grind (string_tests, has-erase_self k ks d.1)
