-- ===== src/Version/Tests.antt =====
-- The cases of frontend/src/lib/version.test.ts, with a decimal reader for `Number`.
use lokinode.Common.{
  Text, [], codes, false, if◌then◌else◌, leb, none, refl, some, true, ℕ, ◌&&◌, ◌*◌, ◌+◌, ◌-◌, ◌↔◌,
  ◌∷◌, ◌≡◌,
}
use lokinode.Version.{Num, nan, num, parse, is_newer_version}
use lokinode.Version.Order.{IsComparable, Newer, is_newer_version_iff}

decimal_from : ℕ → Text → Num
decimal_from n [] = num n
decimal_from n (c ∷ s) =
    let rest = decimal_from (n * 10 + (c - 48)) s in if leb 48 c && leb c 57 then rest else nan

decimal : Text → Num
unfolding decimal_from
decimal = decimal_from 0

newer_tests :
    (is_newer_version decimal (some (codes "v0.1.3")) (some (codes "v0.1.2")) ≡ true)
    × (is_newer_version decimal (some (codes "v0.1.0")) (some (codes "v0.2.0")) ≡ false)
    × (is_newer_version decimal (some (codes "v1.1")) (some (codes "v1.0")) ≡ true)
    × (is_newer_version decimal (some (codes "v0.1.7")) (some (codes "v0.1.7-rc1")) ≡ true)
    × (is_newer_version decimal (some (codes "v0.1.7-rc2")) (some (codes "v0.1.7-rc1")) ≡ false)
    × (is_newer_version decimal (some (codes "not-a-version")) (some (codes "v0.1.2")) ≡ false)
    × (is_newer_version decimal none (some (codes "v0.1.2")) ≡ false)
unfolding is_newer_version decimal
newer_tests = (refl, refl, refl, refl, refl, refl, refl)

abbrev v1 : Text
v1 = codes "v1.2.3"

abbrev v2 : Text
v2 = codes "1.3"

abbrev rc : Text
rc = codes "v1.2.3-rc.1"

v2_newer : is_newer_version decimal (some v2) (some v1) ≡ true
unfolding is_newer_version decimal
v2_newer = refl

release_newer : is_newer_version decimal (some v1) (some rc) ≡ true
unfolding is_newer_version decimal
release_newer = refl

is_newer_version_iff_example : (is_newer_version decimal (some v1) (some rc) ≡ true) ↔ (
    IsComparable decimal v1 × IsComparable decimal rc × Newer (parse decimal v1) (parse decimal rc))
is_newer_version_iff_example = is_newer_version_iff decimal v1 rc
