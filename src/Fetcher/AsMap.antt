-- ===== src/Fetcher/AsMap.antt =====
-- The headers of frontend/src/lib/fetcher.ts as a map: the view that forgets the order of the entries,
-- the case of the names and how often a name is given.
use lokinode.Common.{
  Bool-cases, Option, String, Text, [], ap, eq_iff, inl, inr, str_eq, string_tests, sym, ◌∙◌, ◌≡◌,
}
use mathlib.Core.HLevel.{hedberg}
use mathlib.Core.Quot
use mathlib.Core.Quot.{Quot, Quot-set}
use mathlib.Core.List.{append-nil}
use lokinode.Fetcher.Normal.{collected}
use lokinode.Fetcher.{Headers, Init, header, new_headers, request_headers, fetched}
use lokinode.Fetcher.Headers.{header-request_headers, with_token, read-again}

String-Discrete : (s t : String) → Dec (s ≡ t)
String-Discrete s t = elim (Bool-cases (str_eq s t)) [
  | inl e ↦ yes ((eq_iff s t).0 e)
  | inr e ↦ no (λ p. grind (string_tests, e, p))
]

pub String-IsSet : IsSet String
String-IsSet = hedberg String-Discrete

-- two lists of entries stand for the same headers
abbrev pub SameHeaders : Headers → Headers → Type 0
SameHeaders hs gs = (k : Text) → header k (new_headers hs) ≡ header k (new_headers gs)

abbrev pub HeaderMap : Type 0
HeaderMap = Quot SameHeaders

unfoldable pub value : Text → HeaderMap → Option String
value k = Quot.lift (hlevel (String-IsSet)) (λ hs. header k (new_headers hs)) (λ hs gs h. h k)

pub with_token-SameHeaders :
    (token : String) (hs gs : Headers)
    → SameHeaders hs gs
    → SameHeaders (request_headers hs token) (request_headers gs token)
with_token-SameHeaders token hs gs h k =
    header-request_headers hs token k
    ∙ ap (with_token token k) (h k)
    ∙ sym (header-request_headers gs token k)

-- what a request makes of the map of the caller
unfoldable pub send : String → HeaderMap → HeaderMap
send token =
    Quot.lift Quot-set (λ hs. Quot.mk (request_headers hs token))
      (λ hs gs h. Quot.sound (with_token-SameHeaders token hs gs h))

value-send :
    (token : String) (k : Text) (m : HeaderMap)
    → value k (send token m) ≡ with_token token k (value k m)
unfolding value send
value-send token k = Quot.ind (λ m. hlevel (String-IsSet)) (λ hs. header-request_headers hs token k)

same_again : (hs : Headers) → SameHeaders (new_headers hs) hs
unfolding header collected
same_again hs k =
    ap (λ z. header k (new_headers z)) (sym (append-nil (new_headers hs))) ∙ read-again hs k []

-- The headers of a request are a function of the map that the caller's headers stand for: neither the
-- order of the entries nor the case of the names matters. Under each name they have what the caller's map
-- has, and under `authorization`, if there is a token, `Bearer` and the token behind it.
pub fetched-send :
    (url : String) (init : Init) (token : String) (k : Text)
    → (Quot.mk (fetched url init token).headers ≡ send token (Quot.mk init.headers))
      × (value k (send token (Quot.mk init.headers))
          ≡ with_token token k (value k (Quot.mk init.headers)))
unfolding fetched send
fetched-send url init token k = (
  Quot.sound (same_again (request_headers init.headers token)),
  value-send token k (Quot.mk init.headers),
)
