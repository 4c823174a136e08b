-- ===== src/Fetcher/Tests.antt =====
-- The requests of frontend/src/lib/fetcher.ts at concrete inputs.
use lokinode.Common.{
  Option, String, [], codes, if◌then◌else◌, lower, ltb, none, refl, some, text_eq, ℕ, ◌∷◌, ◌≡◌,
}
use lokinode.Fetcher.{
  settle, error_message, err, api_error, get_raw_token, Response, Init, header, fetched, post,
  json_init, request_headers, new_headers,
}
use lokinode.Fetcher.Token.{TokenOutcome, get_raw_token-TokenOutcome}
use mathlib.Core.Quot
use lokinode.Fetcher.AsMap.{send, value, fetched-send}
use lokinode.Fetcher.Headers.{authorization, header-fetched, with_token}

-- the third call gives a token
abbrev third : ℕ → Option String
third i = if ltb i 2 then none else some "abc"

third_token : get_raw_token third ≡ ("abc", 2)
unfolding get_raw_token
third_token = refl

get_raw_token-TokenOutcome_example : TokenOutcome 0 20 third (get_raw_token third)
get_raw_token-TokenOutcome_example = get_raw_token-TokenOutcome third

abbrev limited : Response String
limited = record {
  status = 429;
  status_text = "Too Many Requests";
  content_length = none;
  json = none;
  message = some none;
}

limited_is_refused : settle limited ≡ err (api_error 429 "Request failed")
unfolding settle error_message
limited_is_refused = refl

abbrev json_post : Init
json_post = json_init "POST" "{}"

posted_authorization :
    header (codes "authorization") (fetched "/api/stop" json_post "abc").headers
    ≡ with_token "abc"
        (codes "authorization")
        (header (codes "authorization") (new_headers json_post.headers))
posted_authorization = header-fetched "/api/stop" json_post "abc" (codes "authorization")

-- the names are in lower case
posted_headers :
    (post (λ (s : String). s) "/api/stop" "{}" "abc").headers
    ≡ (codes "content-type", "application/json") ∷ (codes "authorization", "Bearer abc") ∷ []
unfolding post request_headers new_headers text_eq lower
posted_headers = refl

fetched-send_example :
    (Quot.mk (fetched "/api/stop" json_post "abc").headers ≡ send "abc" (Quot.mk json_post.headers))
    × (value authorization (send "abc" (Quot.mk json_post.headers))
        ≡ with_token "abc" authorization (value authorization (Quot.mk json_post.headers)))
fetched-send_example = fetched-send "/api/stop" json_post "abc" authorization
