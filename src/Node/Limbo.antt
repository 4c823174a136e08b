-- ===== src/Node/Limbo.antt =====
-- A boot that gets into limbo, in frontend/src/pages/Node/Node.tsx: the effect of the watch runs then.
use lokinode.Daemon.{DaemonState, tag, other, init, starting, state_none, unset}
use lokinode.Node.Derived.{state, is_boot_state}
use lokinode.Common.{
  Bool, String, ap, arith, false, not, refl, str_eq, string_tests, true, ◌&&◌, ◌||◌, ◌∙◌, ◌≡◌,
}
use lokinode.Node.Page.{Page}
use lokinode.Node.Effects.{in_boot_limbo}
use lokinode.Node.Commit.{differs, state_changed, boot_changed}

-- a state that the source does not name has a text other than those of a boot
abbrev pub is_proper : DaemonState → Bool
is_proper (other s) = not (str_eq s "init" || str_eq s "starting" || str_eq s "none" || str_eq s "")
is_proper _ = true

same_tag : (s t : String) → str_eq s t ≡ true → s ≡ t
same_tag s t h = grind string_tests

is_boot_tag : String → Bool
is_boot_tag s = str_eq s "init" || str_eq s "starting" || str_eq s "none" || str_eq s ""

boot-is_boot_tag : (d : DaemonState) → is_boot_state d ≡ true → is_boot_tag (tag d) ≡ true
unfolding is_boot_tag
boot-is_boot_tag init h = refl
boot-is_boot_tag starting h = refl
boot-is_boot_tag state_none h = refl
boot-is_boot_tag unset h = refl
boot-is_boot_tag d h = ground arith

is_boot_tag-boot :
    (d : DaemonState) → is_proper d ≡ true → is_boot_tag (tag d) ≡ true → is_boot_state d ≡ true
unfolding is_boot_tag
is_boot_tag-boot (other s) p h = ground arith
is_boot_tag-boot d p h = ground arith

still_boot :
    (a r : Page)
    → is_proper (state a) ≡ true
    → state_changed a r ≡ false
    → is_boot_state (state r) ≡ true
    → is_boot_state (state a) ≡ true
still_boot a r p h k =
    let e : tag (state a) ≡ tag (state r) =
      same_tag (tag (state a)) (tag (state r)) (ground arith) in
    is_boot_tag-boot (state a) p (ap is_boot_tag e ∙ boot-is_boot_tag (state r) k)

-- a value that makes the limbo begin is among those that the effect depends on
begun_by :
    (n m r s u v t w l k b c sc rs : Bool)
    → (sc ≡ false → c ≡ true → b ≡ true)
    → (n && not r && not u && not t && not l && b) ≡ false
    → (m && not s && not v && not w && not k && c) ≡ true
    → (sc || differs n m || differs r s || differs u v || differs t w || differs l k || rs) ≡ true
begun_by n m r s u v t w l k b c sc rs f h g = ground arith

pub limbo-changed :
    (a r : Page)
    → is_proper (state a) ≡ true
    → in_boot_limbo a ≡ false
    → in_boot_limbo r ≡ true
    → boot_changed a r ≡ true
unfolding in_boot_limbo boot_changed
limbo-changed a r p h k = begun_by _ _ _ _ _ _ _ _ _ _ _ _ _ _ (still_boot a r p) h k
