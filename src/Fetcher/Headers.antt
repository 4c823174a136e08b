-- ===== src/Fetcher/Headers.antt =====
-- The headers of frontend/src/lib/fetcher.ts.
use Prim.Native.String
use mathlib.Core.Path.{subst}
use mathlib.Core.List.{append-nil}
use lokinode.Common.{
  Bool-cases, Option, String, Text, [], ap, arith, codes, if◌then◌else◌, inl, inr, lower, none, not,
  refl, some, str_eq, sym, text_eq, text_eq→eq, ◌&&◌, ◌++◌, ◌∙◌, ◌∷◌, ◌≡◌, ◌≢◌,
}
use lokinode.Fetcher.Normal.{
  collected, header-append_all, IsNormal, append_all-IsNormal, collected-IsNormal,
  set_header-append, nil-Apart, assign-Apart,
}
use lokinode.Fetcher.{
  Init, fetched, Headers, request_headers, header, joined, new_headers, set_header, assign,
  auth_header,
}

abbrev pub authorization : Text
authorization = codes "authorization"

capital : lower (codes "Authorization") ≢ codes "Authorization"
unfolding lower
capital e = cc

no_authorization : (hs : Headers) → IsNormal hs → header (codes "Authorization") hs ≡ none
unfolding IsNormal header
no_authorization [] n = refl
no_authorization ((j, w) ∷ hs) n = elim (Bool-cases (text_eq j (codes "Authorization"))) [
  | inl e ↦ absurd (capital (subst (λ z. lower z ≡ z) (text_eq→eq j (codes "Authorization") e) n.0))
  | inr e ↦ ground (arith, e, no_authorization hs n.2)
]

collected-append :
    (k : Text) (hs more : Headers) (o : Option String)
    → collected k o (hs ++ more) ≡ collected k (collected k o hs) more
unfolding collected
collected-append k [] more o = refl
collected-append k ((j, v) ∷ hs) more o = collected-append k hs more _

-- the header of a name with the token: a header `authorization` that the caller gave comes first
unfoldable pub with_token : String → Text → Option String → Option String
unfolding text_eq
with_token token k o =
    if not (str_eq token "") && text_eq authorization k
    then some (joined o (String.◌++◌ "Bearer " token))
    else o

module _ (given : Headers) where
  given-IsNormal : IsNormal (new_headers given)
  unfolding new_headers IsNormal
  given-IsNormal = append_all-IsNormal [] given tt

  copied : assign [] (new_headers given) ≡ new_headers given
  copied = assign-Apart [] (new_headers given) given-IsNormal (nil-Apart (new_headers given))

  pub read-again :
      (k : Text) (hs : Headers)
      → header k (new_headers (new_headers given ++ hs))
        ≡ collected k (header k (new_headers given)) hs
  unfolding new_headers header
  read-again k hs =
      header-append_all k [] (new_headers given ++ hs)
      ∙ collected-append k (new_headers given) hs none
      ∙ ap (λ o. collected k o hs) (collected-IsNormal k (new_headers given) given-IsNormal)

  request_headers-append :
      (token : String) → request_headers given token ≡ new_headers given ++ auth_header token
  unfolding request_headers auth_header assign
  request_headers-append token = elim (Bool-cases (str_eq token "")) [
    | inl e ↦ rw e (copied ∙ sym (append-nil (new_headers given)))
    | inr e ↦ rw e (
        ap (λ z. set_header (codes "Authorization") (String.◌++◌ "Bearer " token) z) copied
        ∙ set_header-append (codes "Authorization") _ (new_headers given)
            (no_authorization (new_headers given) given-IsNormal))
  ]

  collected-auth_header :
      (token : String) (k : Text) (o : Option String)
      → collected k o (auth_header token) ≡ with_token token k o
  unfolding collected auth_header with_token lower
  collected-auth_header token k o = elim (Bool-cases (str_eq token "")) [
    | inl e ↦ rw e refl
    | inr e ↦ rw e refl
  ]

  pub header-request_headers :
      (token : String) (k : Text)
      → header k (new_headers (request_headers given token))
        ≡ with_token token k (header k (new_headers given))
  header-request_headers token k =
      ap (λ z. header k (new_headers z)) (request_headers-append token)
      ∙ read-again k (auth_header token)
      ∙ collected-auth_header token k (header k (new_headers given))

-- What `fetch` sends under a name is what the caller gave under it, in any case of its letters, and under
-- `authorization`, if there is a token, `Bearer` and the token, behind what the caller gave there.
pub header-fetched :
    (url : String) (init : Init) (token : String) (k : Text)
    → header k (fetched url init token).headers
      ≡ with_token token k (header k (new_headers init.headers))
unfolding fetched
header-fetched url init token k = header-request_headers init.headers token k
