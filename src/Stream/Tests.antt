-- ===== src/Stream/Tests.antt =====
-- The provider of the events at a concrete life.
use lokinode.Common.{List, String, [], none, refl, ℕ, ◌∷◌, ◌≡◌}
use lokinode.Stream.Live.{Change, answered, left, run, run-IsFollowed, IsFollowed}

-- the provider leaves before the token comes, last first
abbrev late_token : List Change
late_token = answered "abc" 8080 ∷ left ∷ []

abbrev port_text : ℕ → String
port_text n = "8080"

stays_closed : (run port_text late_token).source ≡ none
unfolding run
stays_closed = refl

run-IsFollowed_example : IsFollowed port_text late_token (run port_text late_token)
run-IsFollowed_example = run-IsFollowed port_text late_token
