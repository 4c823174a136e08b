-- ===== src/Stream.antt =====
-- frontend/src/providers/EventStreamProvider.tsx: the stream of server-sent events. `event_no` stands
-- for the identity of the event object, which React compares. `JSON.parse` is left out: a message is
-- the event that its data spells. `mutated` lists the cache keys that were revalidated, last first.
pub mod Live
mod Tests
use Prim.Native.String
use lokinode.Common.{
  Bool, List, Option, String, [], false, if◌then◌else◌, ltb, none, some, str_eq, suc, true, ℕ, ◌==◌,
  ◌||◌, ◌∷◌,
}
use lokinode.Daemon.{DaemonState, StateEvent, ready, block, tx, locked, no_wallet}

pub data CacheKey : Type 0 where
  balance_key info_key transaction_keys : CacheKey

pub record EventStream : Type 0 where
  pub event : Option StateEvent
  pub event_no : ℕ
  pub connected : Bool
  pub source : Option String
  pub cancelled : Bool
  pub mutated : List CacheKey

abbrev pub initial_stream : EventStream
initial_stream = record {
  event = none;
  event_no = 0;
  connected = false;
  source = none;
  cancelled = false;
  mutated = [];
}

-- a new value of the event, null or an object
abbrev pub set_event : Option StateEvent → EventStream → EventStream
set_event ev s = record s { event = ev; event_no = suc s.event_no }

unfoldable pub reset_event : EventStream → EventStream
reset_event s = set_event none s

-- `!ev.syncedHeight`
abbrev pub is_falsy : Option ℕ → Bool
is_falsy none = true
is_falsy (some n) = n == 0

-- the keys that an event revalidates, in the order of the calls
unfoldable pub revalidated : DaemonState → Option ℕ → List CacheKey
revalidated block synced_height = if is_falsy synced_height then balance_key ∷ info_key ∷ [] else []
revalidated tx synced_height = balance_key ∷ transaction_keys ∷ []
revalidated ready synced_height = info_key ∷ balance_key ∷ []
revalidated locked synced_height = info_key ∷ balance_key ∷ []
revalidated no_wallet synced_height = info_key ∷ balance_key ∷ []
revalidated _ synced_height = []

abbrev pub push_all : List CacheKey → List CacheKey → List CacheKey
push_all [] done = done
push_all (k ∷ ks) done = push_all ks (k ∷ done)

unfoldable pub on_open : EventStream → EventStream
on_open s = record s { connected = true }

unfoldable pub on_message : StateEvent → EventStream → EventStream
unfolding revalidated
on_message ev s = record (set_event (some ev) s) {
  mutated = push_all (revalidated ev.state ev.synced_height) s.mutated;
}

unfoldable pub on_error : EventStream → EventStream
on_error s = set_event none (record s { connected = false })

module _ (number_to_string : ℕ → String) where
  -- the address of the stream; `port > 0` selects the local server
  unfoldable pub stream_url : String → ℕ → String
  stream_url token port =
      let base =
        if ltb 0 port then String.◌++◌ "http://127.0.0.1:" (number_to_string port) else "" in
      String.◌++◌ base (String.◌++◌ "/api/events?token=" token)

  -- what follows the answers of `getRawToken` and `GetAPIServerPort`
  unfoldable pub connect : String → ℕ → EventStream → EventStream
  unfolding stream_url
  connect token port s =
      if s.cancelled || str_eq token ""
      then s
      else record s { source = some (stream_url token port) }

-- the clean-up of the effect
unfoldable pub disconnect : EventStream → EventStream
disconnect s = record s { cancelled = true; source = none }
