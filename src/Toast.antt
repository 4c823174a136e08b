-- ===== src/Toast.antt =====
-- frontend/src/hooks/useToast.ts: the module-level store of toasts, its reducer, its timers and its
-- listeners. `Number.prototype.toString` is a parameter. Of a toast's props the store reads and
-- writes `id` and `open` only; the other props are the four that the program sets.
pub mod Invariant
pub mod Lifecycle
mod Tests
use Prim.Native.Nat.{ℕ}
use lokinode.Common.{
  Bool, List, Option, String, [], erase, false, has, if◌then◌else◌, map, none, or_else, some,
  str_eq, take, true, ◌%◌, ◌++◌, ◌+◌, ◌-◌, ◌==◌, ◌^◌, ◌||◌, ◌∷◌,
}

abbrev pub toast_limit : ℕ
toast_limit = 1

abbrev pub toast_remove_delay : ℕ
toast_remove_delay = 3000

abbrev pub max_safe_integer : ℕ
max_safe_integer = 2 ^ 53 - 1

-- `Toast`, that is `Omit<ToasterToast, "id">`
pub record Props : Type 0 where
  pub variant : Option String
  pub title : Option String
  pub description : Option String
  pub action : Option String

pub record ToasterToast : Type 0 where
  pub id : String
  pub props : Props
  pub is_open : Option Bool

-- `Partial<ToasterToast>`: `none` is a key that is absent
pub record PartialToast : Type 0 where
  pub id : Option String
  pub variant : Option (Option String)
  pub title : Option (Option String)
  pub description : Option (Option String)
  pub action : Option (Option String)
  pub is_open : Option (Option Bool)

pub data Action : Type 0 where
  add_toast : ToasterToast → Action
  update_toast : PartialToast → Action
  dismiss_toast : Option String → Action
  remove_toast : Option String → Action

-- A timer that was set and has not fired stands in `remove_timers` or `dismiss_timers`, under the
-- toast that it is for. `toast_timeouts` holds the keys of the map. `shown` is the state that each
-- component was last given.
pub record Store : Type 0 where
  pub count : ℕ
  pub toast_timeouts : List String
  pub remove_timers : List String
  pub dismiss_timers : List String
  pub memory_state : List ToasterToast
  pub listeners : List ℕ
  pub shown : ℕ → List ToasterToast

unfoldable pub init : Store
init = record {
  count = 0;
  toast_timeouts = [];
  remove_timers = [];
  dismiss_timers = [];
  memory_state = [];
  listeners = [];
  shown = λ l. [];
}

unfoldable pub add_to_remove_queue : String → Store → Store
add_to_remove_queue id s = if has id s.toast_timeouts then s else record s {
  toast_timeouts = s.toast_timeouts ++ id ∷ [];
  remove_timers = s.remove_timers ++ id ∷ [];
}

-- `state.toasts.forEach(...)`
unfoldable pub queue_all : List ToasterToast → Store → Store
queue_all [] s = s
queue_all (t ∷ ts) s = queue_all ts (add_to_remove_queue t.id s)

-- the calls that the case DISMISS_TOAST makes before it returns; an empty text is no id there
unfoldable pub queue_dismissed : Option String → List ToasterToast → Store → Store
unfolding add_to_remove_queue queue_all
queue_dismissed none toasts s = queue_all toasts s
queue_dismissed (some id) toasts s =
    if str_eq id "" then queue_all toasts s else add_to_remove_queue id s

-- `{ ...t, ...action.toast }`
unfoldable pub merge : ToasterToast → PartialToast → ToasterToast
merge t p = record {
  id = or_else p.id t.id;
  props = record {
    variant = or_else p.variant t.props.variant;
    title = or_else p.title t.props.title;
    description = or_else p.description t.props.description;
    action = or_else p.action t.props.action;
  };
  is_open = or_else p.is_open t.is_open;
}

-- `t.id === id`
abbrev pub same_id : Option String → ToasterToast → Bool
same_id none t = false
same_id (some id) t = str_eq t.id id

-- `t.id === toastId || toastId === undefined`
abbrev pub is_dismissed : Option String → ToasterToast → Bool
is_dismissed none t = true
is_dismissed (some id) t = str_eq t.id id

unfoldable pub close : Option String → ToasterToast → ToasterToast
close toast_id t = if is_dismissed toast_id t then record t { is_open = some false } else t

unfoldable pub without : String → List ToasterToast → List ToasterToast
without id [] = []
without id (t ∷ ts) = if str_eq t.id id then without id ts else t ∷ without id ts

unfoldable pub reduce_toasts : List ToasterToast → Action → List ToasterToast
unfolding merge close without
reduce_toasts toasts (add_toast t) = take toast_limit (t ∷ toasts)
reduce_toasts toasts (update_toast p) = map (λ t. if same_id p.id t then merge t p else t) toasts
reduce_toasts toasts (dismiss_toast toast_id) = map (close toast_id) toasts
reduce_toasts toasts (remove_toast none) = []
reduce_toasts toasts (remove_toast (some id)) = without id toasts

-- what `reducer` does besides: it sets timers
unfoldable pub reduce_timers : Action → Store → Store
unfolding queue_dismissed
reduce_timers (dismiss_toast toast_id) s = queue_dismissed toast_id s.memory_state s
reduce_timers _ s = s

unfoldable pub has_listener : ℕ → List ℕ → Bool
has_listener l [] = false
has_listener l (k ∷ ks) = k == l || has_listener l ks

-- `listeners.forEach((listener) => listener(memoryState))`
unfoldable pub notify : Store → Store
unfolding has_listener
notify s = record s {
  shown = λ l. if has_listener l s.listeners then s.memory_state else s.shown l;
}

unfoldable pub dispatch : Action → Store → Store
unfolding reduce_toasts reduce_timers notify
dispatch a s = notify (record (reduce_timers a s) { memory_state = reduce_toasts s.memory_state a })

-- the callback of `addToRemoveQueue`, three seconds later
unfoldable pub remove_fires : String → Store → Store
unfolding dispatch
remove_fires id s =
    if has id s.remove_timers
    then dispatch (remove_toast (some id)) (record s {
      remove_timers = erase id s.remove_timers;
      toast_timeouts = erase id s.toast_timeouts;
    })
    else s

-- the callback that `toast` leaves, three seconds later
unfoldable pub dismiss_fires : String → Store → Store
unfolding dispatch
dismiss_fires id s =
    if has id s.dismiss_timers
    then dispatch (dismiss_toast (some id))
        (record s { dismiss_timers = erase id s.dismiss_timers })
    else s

-- `useToast` in a component: `useState(memoryState)`, and the effect that subscribes
unfoldable pub mount : ℕ → Store → Store
mount l s = record s {
  listeners = s.listeners ++ l ∷ [];
  shown = λ k. if l == k then s.memory_state else s.shown k;
}

unfoldable pub splice : ℕ → List ℕ → List ℕ
splice l [] = []
splice l (k ∷ ks) = if k == l then ks else k ∷ splice l ks

-- the clean-up of that effect
unfoldable pub unmount : ℕ → Store → Store
unfolding splice
unmount l s = record s { listeners = splice l s.listeners }

module _ (to_string : ℕ → String) where
  -- the new value of `count`, whose text is the id
  unfoldable pub gen_id : Store → Store × String
  gen_id s =
      let count = (s.count + 1) % max_safe_integer in (record s { count = count }, to_string count)

  unfoldable pub toast : Props → Store → Store × String
  unfolding gen_id dispatch
  toast props s =
      let (s', id) = gen_id s in
      let shown =
        dispatch (add_toast (record { id = id; props = props; is_open = some true })) s' in
      (record shown { dismiss_timers = shown.dismiss_timers ++ id ∷ [] }, id)

-- What can happen to the store: the calls of components, the timers, the components themselves.
pub data Event : Type 0 where
  toast_called : Props → Event
  update_called : String → PartialToast → Event
  dismiss_called : Option String → Event
  remove_timer dismiss_timer : String → Event
  mounted unmounted : ℕ → Event

module _ (to_string : ℕ → String) where
  -- `update` is what `toast` returns, with the id put in
  unfoldable pub step : Store → Event → Store
  unfolding toast dispatch remove_fires dismiss_fires mount unmount
  step s (toast_called props) = (toast to_string props s).0
  step s (update_called id p) = dispatch (update_toast (record p { id = some id })) s
  step s (dismiss_called toast_id) = dispatch (dismiss_toast toast_id) s
  step s (remove_timer id) = remove_fires id s
  step s (dismiss_timer id) = dismiss_fires id s
  step s (mounted l) = mount l s
  step s (unmounted l) = unmount l s

  unfoldable pub run : Store → List Event → Store
  unfolding step
  run s [] = s
  run s (e ∷ es) = run (step s e) es
