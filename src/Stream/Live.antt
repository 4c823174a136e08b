-- ===== src/Stream/Live.antt =====
-- The stream of frontend/src/providers/EventStreamProvider.tsx over its life.
use lokinode.Common.{Bool, List, Option, String, [], arith, false, none, some, true, ℕ, ◌∷◌, ◌≡◌}
use lokinode.Daemon.{StateEvent}
use lokinode.Stream.{
  EventStream, initial_stream, on_open, on_message, on_error, reset_event, connect, disconnect,
}

-- what happens to the provider: the answers of its first requests, the entries of the stream, a call of
-- `resetEvent`, and its end
pub data Change : Type 0 where
  answered : String → ℕ → Change
  opened dropped was_reset left : Change
  message : StateEvent → Change

-- the last message, unless the stream dropped or was reset after it; the changes are listed last first
unfoldable pub latest : List Change → Option StateEvent
latest [] = none
latest (message ev ∷ cs) = some ev
latest (dropped ∷ cs) = none
latest (was_reset ∷ cs) = none
latest (_ ∷ cs) = latest cs

-- the stream opened and did not drop since
unfoldable pub is_up : List Change → Bool
is_up [] = false
is_up (opened ∷ cs) = true
is_up (dropped ∷ cs) = false
is_up (_ ∷ cs) = is_up cs

unfoldable pub has_left : List Change → Bool
has_left [] = false
has_left (left ∷ cs) = true
has_left (_ ∷ cs) = has_left cs

module _ (number_to_string : ℕ → String) where
  unfoldable pub step : Change → EventStream → EventStream
  unfolding on_open on_message on_error reset_event connect disconnect
  step (answered token port) s = connect number_to_string token port s
  step opened s = on_open s
  step dropped s = on_error s
  step was_reset s = reset_event s
  step left s = disconnect s
  step (message ev) s = on_message ev s

  unfoldable pub run : List Change → EventStream
  unfolding step
  run [] = initial_stream
  run (c ∷ cs) = step c (run cs)

  unfoldable pub IsFollowed : List Change → EventStream → Type 0
  unfolding latest is_up has_left
  IsFollowed cs s =
      (s.event ≡ latest cs)
      × (s.connected ≡ is_up cs)
      × (s.cancelled ≡ has_left cs)
      × (has_left cs ≡ true → s.source ≡ none)

  -- Whatever happens to the provider, the event that it hands on is the last message, unless the stream
  -- dropped or was reset after it, it is connected exactly while the stream is up, and once it has
  -- left no stream is open, even if the answers that it waited for come later.
  pub run-IsFollowed : (cs : List Change) → IsFollowed cs (run cs)
  unfolding IsFollowed run latest is_up has_left on_open on_message on_error reset_event connect
      disconnect
  run-IsFollowed [] = ground arith
  run-IsFollowed (opened ∷ cs) = let h = run-IsFollowed cs in ground arith
  run-IsFollowed (c ∷ cs) = let h = run-IsFollowed cs in ground arith
