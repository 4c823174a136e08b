-- ===== src/Wallet/Receive.antt =====
-- The view that shows an address to receive on, frontend/src/views/node/Receive.tsx. The picture of the
-- address is left out; the button that copies it is in Clipboard. `out` lists the calls that leave the
-- view, last first.
use lokinode.Common.{Bool, List, String, [], false, if◌then◌else◌, ltb, true, ℕ, ◌-◌, ◌||◌, ◌∷◌}
use lokinode.Fetcher.{Outcome, failure_text, ok, err}

pub data AddrType : Type 0 where
  segwit taproot : AddrType

abbrev pub same_type : AddrType → AddrType → Bool
same_type segwit segwit = true
same_type taproot taproot = true
same_type _ _ = false

pub data Call : Type 0 where
  get_preference get_address post_new : Call
  patch_preference : AddrType → Call
  toast_error : String → Call

pub record Receive : Type 0 where
  pub address : String
  pub loading : Bool
  pub generating : Bool
  pub addr_type : AddrType
  pub out : List Call

abbrev pub call : Call → Receive → Receive
call c p = record p { out = c ∷ p.out }

-- the first render, with its two requests
abbrev pub mounted : Receive
mounted = record {
  address = "";
  loading = true;
  generating = false;
  addr_type = segwit;
  out = get_address ∷ get_preference ∷ [];
}

-- a failed request for the preference counts as `segwit`
abbrev pub preferred : Outcome AddrType → AddrType
preferred (ok ty) = ty
preferred (err e) = segwit

-- both requests have ended
unfoldable pub loaded : Outcome AddrType → Outcome String → Receive → Receive
loaded pref (ok address) p = record p {
  addr_type = preferred pref;
  address = address;
  loading = false;
}
loaded pref (err e) p = call (toast_error (failure_text e)) (record p { loading = false })

unfoldable pub handle_type_change : AddrType → Receive → Receive
handle_type_change ty p =
    if same_type ty p.addr_type || p.generating
    then p
    else call (patch_preference ty) (record p { generating = true })

-- a button of the two types, disabled while something is awaited
unfoldable pub click_type : AddrType → Receive → Receive
unfolding handle_type_change
click_type ty p = if p.loading || p.generating then p else handle_type_change ty p

-- the pause before an answer that came within `least` milliseconds is shown
unfoldable pub pause : ℕ → ℕ → ℕ
pause least elapsed = if ltb elapsed least then least - elapsed else 0

-- the answer, after that pause
unfoldable pub type_changed : Outcome (AddrType × String) → Receive → Receive
type_changed (ok (ty, address)) p = record p {
  addr_type = ty;
  address = address;
  generating = false;
}
type_changed (err e) p = call (toast_error (failure_text e)) (record p { generating = false })

unfoldable pub new_address : Receive → Receive
new_address p = call post_new (record p { generating = true })

unfoldable pub click_new : Receive → Receive
unfolding new_address
click_new p = if p.loading || p.generating then p else new_address p

unfoldable pub new_came : Outcome String → Receive → Receive
new_came (ok address) p = record p { address = address; generating = false }
new_came (err e) p = call (toast_error (failure_text e)) (record p { generating = false })
