-- ===== src/Wallet/Shown.antt =====
-- The address that frontend/src/views/node/Receive.tsx shows, and its type. Which type an address has is
-- the parameter `type_of`.
use lokinode.Common.{
  Bool, Option, String, arith, false, if◌then◌else◌, is_some, length, ltb, none, refl, some, true,
  ◌&&◌, ◌||◌, ◌≡◌,
}
use lokinode.Fetcher.{Failure, ok, err}
use lokinode.Wallet.Receive.{
  AddrType, Receive, click_new, click_type, loaded, mounted, new_came, type_changed,
  handle_type_change, new_address,
}

-- The view with the wallet's preference, the type whose preference is being saved, the type that the
-- wallet preferred when a new address was asked for, and whether the last change of the type failed after
-- the wallet had saved it.
pub record Both : Type 0 where
  pub view : Receive
  pub preference : AddrType
  pub awaited_type : Option AddrType
  pub awaited_new : Option AddrType
  pub type_lost : Bool

-- a request was sent
abbrev pub sent : Receive → Receive → Bool
sent p q = ltb (length p.out) (length q.out)

abbrev pub type_clicked : AddrType → Both → Both
type_clicked ty s = record s {
  view = click_type ty s.view;
  awaited_type = if sent s.view (click_type ty s.view) then some ty else s.awaited_type;
}

abbrev pub new_clicked : Both → Both
new_clicked s = record s {
  view = click_new s.view;
  awaited_new = if sent s.view (click_new s.view) then some s.preference else s.awaited_new;
}

module _ (type_of : String → AddrType) where
  -- From the time that the first address and the preference are there, whatever the user clicks and in
  -- whatever order the answers come. The wallet gives addresses of the type that it prefers.
  pub data Reach : Both → Type 0 where
    opened :
        (ty : AddrType) (address : String)
        → type_of address ≡ ty
        → Reach (record {
          view = loaded (ok ty) (ok address) mounted;
          preference = ty;
          awaited_type = none;
          awaited_new = none;
          type_lost = false;
        })
    picked : (ty : AddrType) (s : Both) → Reach s → Reach (type_clicked ty s)
    asked : (s : Both) → Reach s → Reach (new_clicked s)
    type_answered :
        (ty : AddrType) (address : String) (s : Both)
        → Reach s
        → s.awaited_type ≡ some ty
        → type_of address ≡ ty
        → Reach (record s {
          view = type_changed (ok (ty, address)) s.view;
          preference = ty;
          awaited_type = none;
          type_lost = false;
        })
    -- before the wallet has saved the preference
    type_refused :
        (e : Failure) (s : Both)
        → Reach s
        → is_some s.awaited_type ≡ true
        → Reach (record s { view = type_changed (err e) s.view; awaited_type = none })
    -- the wallet has saved the preference and then has no address of the type
    type_failed :
        (e : Failure) (ty : AddrType) (s : Both)
        → Reach s
        → s.awaited_type ≡ some ty
        → Reach (record s {
          view = type_changed (err e) s.view;
          preference = ty;
          awaited_type = none;
          type_lost = true;
        })
    new_answered :
        (ty : AddrType) (address : String) (s : Both)
        → Reach s
        → s.awaited_new ≡ some ty
        → type_of address ≡ ty
        → Reach (record s { view = new_came (ok address) s.view; awaited_new = none })
    new_refused :
        (e : Failure) (s : Both)
        → Reach s
        → is_some s.awaited_new ≡ true
        → Reach (record s { view = new_came (err e) s.view; awaited_new = none })

  -- with what makes it so: one request at a time, and a new address is awaited from the type shown
  record Inv (s : Both) : Type 0 where
    shown : s.type_lost ≡ false → type_of s.view.address ≡ s.view.addr_type
    preferred : s.type_lost ≡ false → s.view.addr_type ≡ s.preference
    waits : s.view.generating ≡ (is_some s.awaited_type || is_some s.awaited_new)
    one : (is_some s.awaited_type && is_some s.awaited_new) ≡ false
    same : (ty : AddrType) → s.awaited_new ≡ some ty → ty ≡ s.preference

  picked-Inv : (ty : AddrType) (s : Both) → Inv s → Inv (type_clicked ty s)
  unfolding click_type handle_type_change
  picked-Inv ty s i = ground arith

  asked-Inv : (s : Both) → Inv s → Inv (new_clicked s)
  unfolding click_new new_address
  asked-Inv s i = ground arith

  module _ (s : Both) (i : Inv s) where
    type_answered-Inv :
        (ty : AddrType) (address : String)
        → s.awaited_type ≡ some ty
        → type_of address ≡ ty
        → Inv (record s {
          view = type_changed (ok (ty, address)) s.view;
          preference = ty;
          awaited_type = none;
          type_lost = false;
        })
    unfolding type_changed
    type_answered-Inv ty address w h = ground arith

    type_refused-Inv :
        (e : Failure)
        → is_some s.awaited_type ≡ true
        → Inv (record s { view = type_changed (err e) s.view; awaited_type = none })
    unfolding type_changed
    type_refused-Inv e w = ground arith

    type_failed-Inv :
        (e : Failure) (ty : AddrType)
        → s.awaited_type ≡ some ty
        → Inv (record s {
          view = type_changed (err e) s.view;
          preference = ty;
          awaited_type = none;
          type_lost = true;
        })
    unfolding type_changed
    type_failed-Inv e ty w = ground arith

    new_answered-Inv :
        (ty : AddrType) (address : String)
        → s.awaited_new ≡ some ty
        → type_of address ≡ ty
        → Inv (record s { view = new_came (ok address) s.view; awaited_new = none })
    unfolding new_came
    new_answered-Inv ty address w h = ground (arith, i.same ty w)

    new_refused-Inv :
        (e : Failure)
        → is_some s.awaited_new ≡ true
        → Inv (record s { view = new_came (err e) s.view; awaited_new = none })
    unfolding new_came
    new_refused-Inv e w = ground arith

  opened-Inv :
      (ty : AddrType) (address : String)
      → type_of address ≡ ty
      → Inv (record {
        view = loaded (ok ty) (ok address) mounted;
        preference = ty;
        awaited_type = none;
        awaited_new = none;
        type_lost = false;
      })
  unfolding loaded
  opened-Inv ty address h = record {
    shown = λ l. h;
    preferred = λ l. refl;
    waits = refl;
    one = refl;
    same = λ t e. cc;
  }

  Reach-Inv : (s : Both) → Reach s → Inv s
  Reach-Inv s (opened ty address h) = opened-Inv ty address h
  Reach-Inv _ (picked ty s r) = picked-Inv ty s (Reach-Inv s r)
  Reach-Inv _ (asked s r) = asked-Inv s (Reach-Inv s r)
  Reach-Inv _ (type_answered ty address s r w h) =
      type_answered-Inv s (Reach-Inv s r) ty address w h
  Reach-Inv _ (type_refused e s r w) = type_refused-Inv s (Reach-Inv s r) e w
  Reach-Inv _ (type_failed e ty s r w) = type_failed-Inv s (Reach-Inv s r) e ty w
  Reach-Inv _ (new_answered ty address s r w h) = new_answered-Inv s (Reach-Inv s r) ty address w h
  Reach-Inv _ (new_refused e s r w) = new_refused-Inv s (Reach-Inv s r) e w

  -- Where the view could load the preference and an address, and the wallet gives addresses of the type
  -- that it prefers: unless the last change of the type to end after the wallet had saved it has failed,
  -- the address shown is of the type shown, and that is the type that the wallet prefers, whatever the
  -- user clicks and however the requests end.
  pub address_has_shown_type :
      (s : Both)
      → Reach s
      → s.type_lost ≡ false
      → (type_of s.view.address ≡ s.view.addr_type) × (s.view.addr_type ≡ s.preference)
  address_has_shown_type s r l = let i = Reach-Inv s r in (i.shown l, i.preferred l)
