-- ===== src/Toast/Lifecycle.antt =====
-- A toast from its call to its removal, and toasts that are closed.
use lokinode.Common.{
  Bool, List, String, [], arith, false, has, has-append, refl, some, str_eq, string_tests, true, ℕ,
  ◌++◌, ◌∷◌, ◌≡◌, ◌≢◌,
}
use text.Mathlib.TextPositions.{eq_refl}
use lokinode.Toast.{
  Props, Store, add_to_remove_queue, without, remove_fires, dismiss_fires, toast, close,
}

has-append_self : (k : String) (ks : List String) → has k (ks ++ k ∷ []) ≡ true
has-append_self k ks = rw (has-append k ks k, eq_refl k) (ground arith)

queued :
    (id : String) (s : Store)
    → s.toast_timeouts ≡ s.remove_timers
    → has id (add_to_remove_queue id s).remove_timers ≡ true
unfolding add_to_remove_queue
queued id s h = ground (arith, has-append_self id s.remove_timers)

abbrev IsOnly : String → Props → Bool → Store → Type 0
IsOnly id props open? s =
    s.memory_state ≡ record { id = id; props = props; is_open = some open? } ∷ []

ne_empty : (id : String) → id ≢ "" → str_eq id "" ≡ false
ne_empty id k = grind string_tests

dismiss_closes :
    (id : String) (props : Props) (s : Store)
    → s.toast_timeouts ≡ s.remove_timers
    → id ≢ ""
    → has id s.dismiss_timers ≡ true
    → IsOnly id props true s
    → IsOnly id props false (dismiss_fires id s)
      × (has id (dismiss_fires id s).remove_timers ≡ true)
unfolding dismiss_fires close
dismiss_closes id props s h k set only =
    rw (set, only, eq_refl id, ne_empty id k) (refl, queued id _ h)

remove_empties :
    (id : String) (props : Props) (s : Store)
    → has id s.remove_timers ≡ true
    → IsOnly id props false s
    → (remove_fires id s).memory_state ≡ []
unfolding remove_fires without
remove_empties id props s set only = rw (set, only, eq_refl id) refl

module _ (to_string : ℕ → String) where
  -- A call of `toast` where the map of timers is right and no number has an empty text, then its two
  -- timers: the toast alone is shown, open at first and closed after the first timer, and nothing is
  -- shown after the second.
  pub toast_comes_and_goes :
      (props : Props) (s : Store)
      → s.toast_timeouts ≡ s.remove_timers
      → ((n : ℕ) → to_string n ≢ "")
      → let (shown, id) = toast to_string props s in
        let closed = dismiss_fires id shown in
        let gone = remove_fires id closed in
        (shown.memory_state ≡ record { id = id; props = props; is_open = some true } ∷ [])
        × (closed.memory_state ≡ record { id = id; props = props; is_open = some false } ∷ [])
        × (gone.memory_state ≡ [])
  unfolding toast
  toast_comes_and_goes props s h k =
      let (shown, id) = toast to_string props s in
      let (closed, set) =
        dismiss_closes id props shown h (k _) (has-append_self id s.dismiss_timers) refl in
      (refl, closed, remove_empties id props (dismiss_fires id shown) set closed)
