-- ===== src/Toast/Tests.antt =====
-- Runs of the toast store.
use lokinode.Common.{
  List, String, [], arith, eq_iff, false, has, if◌then◌else◌, none, refl, some, true, ℕ, ◌==◌, ◌∷◌,
  ◌≡◌, ◌≢◌,
}
use lokinode.Toast.{
  Props, init, toast, Event, toast_called, dismiss_called, dismiss_timer, mounted, run,
  remove_fires, dismiss_fires,
}
use lokinode.Toast.Invariant.{Inv, run-init-Inv}
use lokinode.Toast.Lifecycle.{toast_comes_and_goes}

abbrev label : ℕ → String
label n = if n == 0 then "0" else if n == 1 then "1" else "2"

label_ne : (n : ℕ) → label n ≢ ""
label_ne n = ground (arith, eq_iff "0" "", eq_iff "1" "", eq_iff "2" "")

abbrev saved : Props
saved = record { variant = none; title = some "Saved"; description = none; action = none }

abbrev two_toasts : List Event
two_toasts =
    mounted 7
    ∷ toast_called saved
    ∷ toast_called saved
    ∷ dismiss_timer "1"
    ∷ dismiss_called none
    ∷ []

two_toasts_end :
    let s = run label init two_toasts in
    (s.memory_state ≡ record { id = "2"; props = saved; is_open = some false } ∷ [])
    × (s.toast_timeouts ≡ "1" ∷ "2" ∷ [])
    × (s.shown 7 ≡ s.memory_state)
unfolding run init has
two_toasts_end = (refl, refl, refl)

run-init-Inv_example : Inv (run label init two_toasts)
run-init-Inv_example = run-init-Inv label two_toasts

toast_comes_and_goes_example :
    let (shown, id) = toast label saved init in
    let closed = dismiss_fires id shown in
    let gone = remove_fires id closed in
    (shown.memory_state ≡ record { id = id; props = saved; is_open = some true } ∷ [])
    × (closed.memory_state ≡ record { id = id; props = saved; is_open = some false } ∷ [])
    × (gone.memory_state ≡ [])
toast_comes_and_goes_example = toast_comes_and_goes label saved init (unfold init in refl) label_ne
