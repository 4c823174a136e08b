-- ===== src/Toast/Invariant.antt =====
-- What holds of the store of toasts after any events.
use lokinode.Common.{
  Bool-cases, IsDistinct, List, String, [], ap, append-IsDistinct, arith, erase, erase-IsDistinct,
  has, inl, inr, length, map, none, refl, some, true, ℕ, ◌++◌, ◌==◌, ◌||◌, ◌∷◌, ◌≡◌, ◌≤◌,
}
use lokinode.Toast.{
  Props, ToasterToast, Action, add_toast, update_toast, dismiss_toast, remove_toast, Store, init,
  has_listener, add_to_remove_queue, queue_all, queue_dismissed, without, reduce_toasts,
  reduce_timers, notify, splice, dispatch, remove_fires, dismiss_fires, mount, unmount, gen_id,
  toast, Event, toast_called, update_called, dismiss_called, remove_timer, dismiss_timer, mounted,
  unmounted, step, run,
}

-- the timers that remove a toast, and the map that keeps a second one from being set
pub record HasPairedTimers (s : Store) : Type 0 where
  pub paired : s.toast_timeouts ≡ s.remove_timers
  pub distinct : IsDistinct s.toast_timeouts

abbrev pub IsDelivered : Store → Type 0
IsDelivered s = (l : ℕ) → has_listener l s.listeners ≡ true → s.shown l ≡ s.memory_state

abbrev pub IsLimited : Store → Type 0
IsLimited s = length s.memory_state ≤ 1

-- an action on the timers leaves all else alone
pub record OnlyTimers (s t : Store) : Type 0 where
  pub same_memory : t.memory_state ≡ s.memory_state
  pub same_listeners : t.listeners ≡ s.listeners
  pub same_dismiss : t.dismiss_timers ≡ s.dismiss_timers
  pub same_count : t.count ≡ s.count

add_to_remove_queue-HasPairedTimers :
    (id : String) (s : Store) → HasPairedTimers s → HasPairedTimers (add_to_remove_queue id s)
unfolding add_to_remove_queue
add_to_remove_queue-HasPairedTimers id s h =
    ground (arith, append-IsDistinct s.toast_timeouts id h.distinct)

queue_all-HasPairedTimers :
    (ts : List ToasterToast) (s : Store) → HasPairedTimers s → HasPairedTimers (queue_all ts s)
unfolding queue_all
queue_all-HasPairedTimers [] s h = h
queue_all-HasPairedTimers (t ∷ ts) s h =
    queue_all-HasPairedTimers ts (add_to_remove_queue t.id s)
      (add_to_remove_queue-HasPairedTimers t.id s h)

pub reduce_timers-HasPairedTimers :
    (a : Action) (s : Store) → HasPairedTimers s → HasPairedTimers (reduce_timers a s)
unfolding reduce_timers queue_dismissed
reduce_timers-HasPairedTimers (dismiss_toast none) s h =
    queue_all-HasPairedTimers s.memory_state s h
reduce_timers-HasPairedTimers (dismiss_toast (some id)) s h = ground (
  arith,
  queue_all-HasPairedTimers s.memory_state s h,
  add_to_remove_queue-HasPairedTimers id s h,
)
reduce_timers-HasPairedTimers _ s h = h

add_to_remove_queue-OnlyTimers : (id : String) (s : Store) → OnlyTimers s (add_to_remove_queue id s)
unfolding add_to_remove_queue
add_to_remove_queue-OnlyTimers id s = ground arith

queue_all-OnlyTimers : (ts : List ToasterToast) (s : Store) → OnlyTimers s (queue_all ts s)
unfolding queue_all
queue_all-OnlyTimers [] s = ground arith
queue_all-OnlyTimers (t ∷ ts) s = ground (
  arith,
  queue_all-OnlyTimers ts (add_to_remove_queue t.id s),
  add_to_remove_queue-OnlyTimers t.id s,
)

pub reduce_timers-OnlyTimers : (a : Action) (s : Store) → OnlyTimers s (reduce_timers a s)
unfolding reduce_timers queue_dismissed
reduce_timers-OnlyTimers (dismiss_toast none) s = queue_all-OnlyTimers s.memory_state s
reduce_timers-OnlyTimers (dismiss_toast (some id)) s =
    ground (arith, queue_all-OnlyTimers s.memory_state s, add_to_remove_queue-OnlyTimers id s)
reduce_timers-OnlyTimers _ s = ground arith

length-map :
    (f : ToasterToast → ToasterToast) (ts : List ToasterToast) → length (map f ts) ≡ length ts
length-map f [] = refl
length-map f (t ∷ ts) = ap ℕ.suc (length-map f ts)

length-without : (id : String) (ts : List ToasterToast) → length (without id ts) ≤ length ts
unfolding without
length-without id [] = ground arith
length-without id (t ∷ ts) = ground (arith, length-without id ts)

length-reduce_toasts :
    (ts : List ToasterToast) (a : Action) → length ts ≤ 1 → length (reduce_toasts ts a) ≤ 1
unfolding reduce_toasts
length-reduce_toasts ts (add_toast t) h = ground arith
length-reduce_toasts ts (update_toast p) h = rw (length-map _ ts) h
length-reduce_toasts ts (dismiss_toast id) h = rw (length-map _ ts) h
length-reduce_toasts ts (remove_toast none) h = ground arith
length-reduce_toasts ts (remove_toast (some id)) h = ground (arith, length-without id ts)

pub record Inv (s : Store) : Type 0 where
  pub limited : IsLimited s
  pub timers : HasPairedTimers s
  pub delivered : IsDelivered s

dispatch-Inv : (a : Action) (s : Store) → Inv s → Inv (dispatch a s)
unfolding dispatch notify
dispatch-Inv a s h = record {
  limited = length-reduce_toasts s.memory_state a h.limited;
  timers =
      let q = reduce_timers-HasPairedTimers a s h.timers in
      record { paired = q.paired; distinct = q.distinct };
  delivered = λ l e. rw e refl;
}

erase-HasPairedTimers :
    (id : String) (s : Store)
    → HasPairedTimers s
    → HasPairedTimers (record s {
      remove_timers = erase id s.remove_timers;
      toast_timeouts = erase id s.toast_timeouts;
    })
erase-HasPairedTimers id s h = record {
  paired = ap (erase id) h.paired;
  distinct = erase-IsDistinct id s.toast_timeouts h.distinct;
}

remove_fires-Inv : (id : String) (s : Store) → Inv s → Inv (remove_fires id s)
unfolding remove_fires
remove_fires-Inv id s h = elim (Bool-cases (has id s.remove_timers)) [
  | inl set ↦ rw set (
      dispatch-Inv (remove_toast (some id)) _ (record {
        limited = h.limited;
        timers = erase-HasPairedTimers id s h.timers;
        delivered = h.delivered;
      }))
  | inr unset ↦ rw unset h
]

dismiss_fires-Inv : (id : String) (s : Store) → Inv s → Inv (dismiss_fires id s)
unfolding dismiss_fires
dismiss_fires-Inv id s h = elim (Bool-cases (has id s.dismiss_timers)) [
  | inl set ↦ rw set (
      dispatch-Inv (dismiss_toast (some id)) _ (record {
        limited = h.limited;
        timers = record { paired = h.timers.paired; distinct = h.timers.distinct };
        delivered = h.delivered;
      }))
  | inr unset ↦ rw unset h
]

has_listener-append :
    (l k : ℕ) (ls : List ℕ) → has_listener l (ls ++ k ∷ []) ≡ (has_listener l ls || k == l)
unfolding has_listener
has_listener-append l k [] = ground arith
has_listener-append l k (i ∷ ls) = ground (arith, has_listener-append l k ls)

has_listener-splice :
    (l k : ℕ) (ls : List ℕ) → has_listener l (splice k ls) ≡ true → has_listener l ls ≡ true
unfolding has_listener splice
has_listener-splice l k [] h = h
has_listener-splice l k (i ∷ ls) h = ground (arith, has_listener-splice l k ls)

mount-Inv : (l : ℕ) (s : Store) → Inv s → Inv (mount l s)
unfolding mount
mount-Inv l s h = record {
  limited = h.limited;
  timers = record { paired = h.timers.paired; distinct = h.timers.distinct };
  delivered = λ k e. ground (arith, has_listener-append k l s.listeners, h.delivered k);
}

unmount-Inv : (l : ℕ) (s : Store) → Inv s → Inv (unmount l s)
unfolding unmount
unmount-Inv l s h = record {
  limited = h.limited;
  timers = record { paired = h.timers.paired; distinct = h.timers.distinct };
  delivered = λ k e. h.delivered k (has_listener-splice k l s.listeners e);
}

module _ (to_string : ℕ → String) where
  toast-Inv : (props : Props) (s : Store) → Inv s → Inv (toast to_string props s).0
  unfolding toast
  toast-Inv props s h =
      let d = dispatch-Inv (add_toast _) (gen_id to_string s).0 (
        unfold gen_id in
        record {
          limited = h.limited;
          timers = record { paired = h.timers.paired; distinct = h.timers.distinct };
          delivered = h.delivered;
        }) in
      record {
        limited = d.limited;
        timers = record { paired = d.timers.paired; distinct = d.timers.distinct };
        delivered = d.delivered;
      }

  step-Inv : (e : Event) (s : Store) → Inv s → Inv (step to_string s e)
  unfolding step
  step-Inv (toast_called props) s h = toast-Inv props s h
  step-Inv (update_called id p) s h = dispatch-Inv (update_toast (record p { id = some id })) s h
  step-Inv (dismiss_called toast_id) s h = dispatch-Inv (dismiss_toast toast_id) s h
  step-Inv (remove_timer id) s h = remove_fires-Inv id s h
  step-Inv (dismiss_timer id) s h = dismiss_fires-Inv id s h
  step-Inv (mounted l) s h = mount-Inv l s h
  step-Inv (unmounted l) s h = unmount-Inv l s h

  run-Inv : (s : Store) (es : List Event) → Inv s → Inv (run to_string s es)
  unfolding run
  run-Inv s [] h = h
  run-Inv s (e ∷ es) h = run-Inv (step to_string s e) es (step-Inv e s h)

  -- After any calls, timers and mounts from the initial store at most one toast is shown, each
  -- toast has at most one removal timer, which the map records exactly, and every subscribed
  -- component was given the current toasts.
  pub run-init-Inv : (es : List Event) → Inv (run to_string init es)
  run-init-Inv es = run-Inv init es (
      unfold init has_listener in
      record {
        limited = omega arith;
        timers = record { paired = refl; distinct = tt };
        delivered = λ l e. refl;
      })
