-- ===== src/Fetcher.antt =====
-- frontend/src/lib/fetcher.ts: the requests to the backend, and how they fail.
pub mod Token
mod Normal
pub mod Headers
pub mod AsMap
mod Tests
use Prim.Native.String
use lokinode.Common.{
  Bool, List, Option, String, Text, [], codes, false, if◌then◌else◌, leb, lower, ltb, none, some,
  str_eq, suc, text_eq, zero, ℕ, ◌&&◌, ◌==◌, ◌||◌, ◌∷◌,
}

-- an `ApiError` with its status and message, or another exception with its name and message
pub data Failure : Type 0 where
  api_error : ℕ → String → Failure
  other_error : String → String → Failure

-- `err instanceof ApiError && err.status === status`
abbrev pub has_status : ℕ → Failure → Bool
has_status status (api_error n message) = n == status
has_status status (other_error name message) = false

-- how an awaited request ends
pub data Outcome {ℓ} (A : Type ℓ) : Type ℓ where
  ok : A → Outcome A
  err : Failure → Outcome A

-- a response of `fetch`: `json` is what its body parses to, and `message` the field of that name
pub record Response {ℓ} (A : Type ℓ) : Type ℓ where
  pub status : ℕ
  pub status_text : String
  pub content_length : Option String
  pub json : Option A
  pub message : Option (Option String)

-- `res.ok`
abbrev pub is_ok : ℕ → Bool
is_ok status = leb 200 status && ltb status 300

-- `body.message || 'Request failed'`
abbrev pub or_failed : Option String → String
or_failed none = "Request failed"
or_failed (some m) = if str_eq m "" then "Request failed" else m

abbrev pub is_zero_length : Option String → Bool
is_zero_length none = false
is_zero_length (some n) = str_eq n "0"

module _ {ℓ} {A : Type ℓ} where
  -- the message of the error: that of a JSON body, or the status text where the body is no JSON
  unfoldable pub error_message : Response A → String
  error_message res = elim res.message [
    | none ↦ or_failed (some res.status_text)
    | some message ↦ or_failed message
  ]

  abbrev pub parsed : Option A → Outcome (Option A)
  parsed none = err (other_error "SyntaxError" "invalid JSON")
  parsed (some a) = ok (some a)

  -- `fetcher` from the response on; `ok none` is `undefined`
  unfoldable pub settle : Response A → Outcome (Option A)
  unfolding error_message
  settle res =
      if is_ok res.status
      then if res.status == 204 || is_zero_length res.content_length
        then ok none
        else parsed res.json
      else err (api_error res.status (error_message res))

-- `getRawToken`: `token_at i` is the answer of the i-th call of `GetAPIToken`, `none` if it throws.
-- The result is the token and the number of waits of 100 ms.
unfoldable pub token_from : ℕ → ℕ → (ℕ → Option String) → String × ℕ
token_from zero i token_at = ("", i)
token_from (suc rounds) i token_at = elim (token_at i) [
  | none ↦ token_from rounds (suc i) token_at
  | some token ↦ if str_eq token "" then token_from rounds (suc i) token_at else (token, i)
]

unfoldable pub get_raw_token : (ℕ → Option String) → String × ℕ
unfolding token_from
get_raw_token = token_from 20 0

-- The names of headers are texts. The order of the names is not kept track of: nothing reads it.
abbrev pub Headers : Type 0
Headers = List (Text × String)

unfoldable pub header : Text → Headers → Option String
header k [] = none
header k ((j, w) ∷ hs) = if text_eq j k then some w else header k hs

-- the text of a header that is given twice
abbrev pub joined : Option String → String → String
joined none v = v
joined (some w) v = String.◌++◌ w (String.◌++◌ ", " v)

-- `headers.append(k, v)` of a `Headers`, for a name in lower case
unfoldable pub append_header : Text → String → Headers → Headers
append_header k v [] = (k, v) ∷ []
append_header k v ((j, w) ∷ hs) =
    if text_eq j k then (j, joined (some w) v) ∷ hs else (j, w) ∷ append_header k v hs

unfoldable pub append_all : Headers → Headers → Headers
unfolding append_header lower
append_all acc [] = acc
append_all acc ((k, v) ∷ more) = append_all (append_header (lower k) v acc) more

-- `new Headers(given)`
unfoldable pub new_headers : Headers → Headers
unfolding append_all
new_headers given = append_all [] given

-- `headers[k] = v` of an object
unfoldable pub set_header : Text → String → Headers → Headers
set_header k v [] = (k, v) ∷ []
set_header k v ((j, w) ∷ hs) = if text_eq j k then (k, v) ∷ hs else (j, w) ∷ set_header k v hs

-- `Object.assign(headers, more)`
unfoldable pub assign : Headers → Headers → Headers
unfolding set_header
assign headers [] = headers
assign headers ((k, v) ∷ more) = assign (set_header k v headers) more

unfoldable pub auth_header : String → Headers
auth_header token =
    if str_eq token "" then [] else (codes "Authorization", String.◌++◌ "Bearer " token) ∷ []

-- the object that `fetcher` gives to `fetch`
unfoldable pub request_headers : Headers → String → Headers
unfolding assign auth_header new_headers
request_headers given token = assign (assign [] (new_headers given)) (auth_header token)

-- what a caller gives beside the path
pub record Init : Type 0 where
  pub method : String
  pub headers : Headers
  pub body : Option String

-- a request as `fetch` sends it
pub record Request : Type 0 where
  pub url : String
  pub method : String
  pub headers : Headers
  pub body : Option String

-- `fetcher` up to its `fetch`, which reads the object of the headers by `new Headers`
unfoldable pub fetched : String → Init → String → Request
unfolding request_headers new_headers
fetched url init token = record {
  url = url;
  method = init.method;
  headers = new_headers (request_headers init.headers token);
  body = init.body;
}

-- the `init` of a call without one
abbrev pub no_init : Init
no_init = record { method = "GET"; headers = []; body = none }

abbrev pub json_init : String → String → Init
json_init method body = record {
  method = method;
  headers = (codes "Content-Type", "application/json") ∷ [];
  body = some body;
}

module _ {ℓ} {A : Type ℓ} (stringify : A → String) where
  unfoldable pub post : String → A → String → Request
  unfolding fetched
  post url body token = fetched url (json_init "POST" (stringify body)) token

  unfoldable pub patch : String → A → String → Request
  unfolding fetched
  patch url body token = fetched url (json_init "PATCH" (stringify body)) token

-- `String(err)`
abbrev pub failure_text : Failure → String
failure_text (api_error n message) = String.◌++◌ "Error: " message
failure_text (other_error name message) = String.◌++◌ name (String.◌++◌ ": " message)

-- `err.message`
abbrev pub failure_message : Failure → String
failure_message (api_error n message) = message
failure_message (other_error name message) = message
