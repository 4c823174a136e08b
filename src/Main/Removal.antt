-- ===== src/Main/Removal.antt =====
-- The removal of a node from the list, in frontend/src/pages/Main/Main.tsx, as a protocol.
use lokinode.Common.{
  Bool, Bool-cases, List, Option, String, [], arith, false, inl, inr, none, refl, some,
  string_tests, true, ℕ, ◌∙◌, ◌∷◌, ◌≡◌,
}
use lokinode.Main.Page.{Call, MainPage, remove_node}
use lokinode.Main.Effects.{
  commit, run_if, clean_up, dismiss_overlay, set_safety, check_node_dir, leave_when_running,
  watch_start,
}
use lokinode.Main.Nodes.{handle_remove_node, is_confirming}
use lokinode.Main.Steps.{
  remove_clicked, trash_clicked, cancel_clicked, input, render, Input, Mounted, Step, handle,
}

-- What the protocol promises: at most one directory is armed, and a directory is asked to be removed
-- only while it is armed, which disarms it.
pub record Protocol : Type 0 where
  pub armed : Option String
  pub asked : List String

pub data Move (s : Protocol) : Protocol → Type 0 where
  rest : Move s s
  arm : (dir : String) → Move s (record s { armed = some dir })
  disarm : Move s (record s { armed = none })
  ask :
      (dir : String) → s.armed ≡ some dir → Move s (record { armed = none; asked = dir ∷ s.asked })

-- the removals in a list of calls
unfoldable pub removals : List Call → List String
removals [] = []
removals (remove_node dir ∷ cs) = dir ∷ removals cs
removals (_ ∷ cs) = removals cs

unfoldable pub protocol : MainPage → Protocol
unfolding removals
protocol p = record { armed = p.confirm_remove; asked = removals p.out }

-- what the other inputs and the effects leave alone
Keeps : MainPage → MainPage → Type 0
Keeps p q = (q.confirm_remove ≡ p.confirm_remove) × (removals q.out ≡ removals p.out)

touches : Input → Bool
touches (remove_clicked dir) = true
touches (trash_clicked dir) = true
touches cancel_clicked = true
touches _ = false

handle-Keeps : (now : ℕ) (i : Input) (p : MainPage) → touches i ≡ false → Keeps p (handle now i p)
unfolding handle Keeps removals touches
handle-Keeps now i p h = ground arith

run_if-Keeps :
    (b : Bool) (f : MainPage → MainPage) (p q : MainPage)
    → ((o : MainPage) → Keeps o (f o))
    → Keeps p q
    → Keeps p (run_if b f q)
unfolding run_if Keeps
run_if-Keeps true f p q h k = ((h q).0 ∙ k.0, (h q).1 ∙ k.1)
run_if-Keeps false f p q h k = k

module _ (now : ℕ) (r : MainPage) where
  dismiss_overlay-Keeps : (p : MainPage) → Keeps p (dismiss_overlay r p)
  unfolding dismiss_overlay Keeps
  dismiss_overlay-Keeps p = ground arith

  set_safety-Keeps : (p : MainPage) → Keeps p (set_safety now r p)
  unfolding set_safety Keeps
  set_safety-Keeps p = ground arith

  check_node_dir-Keeps : (p : MainPage) → Keeps p (check_node_dir r p)
  unfolding check_node_dir Keeps removals
  check_node_dir-Keeps p = ground arith

  leave_when_running-Keeps : (p : MainPage) → Keeps p (leave_when_running r p)
  unfolding leave_when_running Keeps removals
  leave_when_running-Keeps p = ground arith

  watch_start-Keeps : (p : MainPage) → Keeps p (watch_start now r p)
  unfolding watch_start Keeps
  watch_start-Keeps p = ground arith

  clean_up-Keeps : (a : MainPage) → Keeps r (clean_up a r r)
  unfolding clean_up Keeps
  clean_up-Keeps a = (refl, refl)

  commit-Keeps : (a : MainPage) → Keeps r (commit now a r)
  unfolding commit
  commit-Keeps a = run_if-Keeps _ _ _ _ watch_start-Keeps (
      run_if-Keeps _ _ _ _ leave_when_running-Keeps (
        run_if-Keeps _ _ _ _ check_node_dir-Keeps (
          run_if-Keeps _ _ _ _ set_safety-Keeps
            (run_if-Keeps _ _ _ _ dismiss_overlay-Keeps (clean_up-Keeps a)))))

still : (p q : MainPage) → Keeps p q → Move (protocol p) (protocol q)
unfolding protocol Keeps
still p q k = rw (k.0, k.1) rest

armed_lem : (dir : String) (o : Option String) → is_confirming dir o ≡ true → o ≡ some dir
armed_lem dir none h = cc
armed_lem dir (some d) h = grind string_tests

removed_or_armed :
    (now : ℕ) (dir : String) (p : MainPage)
    → Move (protocol p) (protocol (handle now (remove_clicked dir) p))
unfolding handle protocol removals handle_remove_node
removed_or_armed now dir p = elim (Bool-cases (is_confirming dir p.confirm_remove)) [
  | inl h ↦ rw h (ask dir (armed_lem dir p.confirm_remove h))
  | inr h ↦ rw h (arm dir)
]

handle-Move : (now : ℕ) (i : Input) (p : MainPage) → Move (protocol p) (protocol (handle now i p))
unfolding handle protocol touches
handle-Move now (remove_clicked dir) p = removed_or_armed now dir p
handle-Move now (trash_clicked dir) p = arm dir
handle-Move now cancel_clicked p = disarm
handle-Move now i p = still p _ (handle-Keeps now i p refl)

-- Every step of the main page, be it an input or a render, is a move of the protocol: it changes neither
-- the armed directory nor the removals, arms a directory, disarms, or asks for the removal of the armed
-- directory and disarms it.
pub removal_refines :
    (now : ℕ) (m n : Mounted) → Step now m n → Move (protocol m.page) (protocol n.page)
removal_refines now m n (input i) = handle-Move now i m.page
removal_refines now m n render = still m.page _ (commit-Keeps now m.page m.rendered)
