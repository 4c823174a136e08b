-- ===== src/Main/Sheet.antt =====
-- The rows of the sheet of recent nodes in frontend/src/pages/Main/Main.tsx: what each shows, and what
-- its buttons do.
use lokinode.Common.{
  Bool, List, Option, String, [], arith, false, if◌then◌else◌, is_empty, not, refl, some, str_eq,
  string_tests, true, ◌&&◌, ◌||◌, ◌∷◌, ◌≡◌,
}
use lokinode.Fetcher.{Failure, Outcome, err, ok}
use lokinode.Main.Page.{MainPage, Recent, Stored, remove_node}
use lokinode.Main.Nodes.{
  pick_saved, choice_failed, handle_open_existing, existing_listed, recent_came, is_confirming,
  handle_remove_node, handle_switch_node, handle_reveal_folder, ask_remove, cancel_remove,
  choose_node_dir, pick_configured, pick_checked, dir_picked, picked, look_into,
}

pub data RowView : Type 0 where
  -- "Remove from list?" with its two buttons
  confirming : RowView
  -- the node, whether it is marked as the current one, and whether its bin is there
  entry : (is_current shows_trash : Bool) → RowView

abbrev pub is_current : MainPage → Recent → Bool
is_current p n = str_eq n.dir p.config.node_dir

unfoldable pub row_view : MainPage → Recent → RowView
row_view p n =
    if is_confirming n.dir p.confirm_remove
    then confirming
    else entry (is_current p n) (not (is_current p n))

pub data Click : Type 0 where
  cancel remove switch reveal trash : Click

unfoldable pub is_listed : String → List Recent → Bool
is_listed dir [] = false
is_listed dir (n ∷ ns) = str_eq n.dir dir || is_listed dir ns

-- the sheet is open and has a row for the node
unfoldable pub has_row : Recent → MainPage → Bool
unfolding is_listed
has_row n p = p.show_recent && is_listed n.dir p.recent_nodes

-- a button of a row, where the row is there and has it
unfoldable pub click_row : Click → Recent → MainPage → MainPage
unfolding handle_remove_node handle_switch_node handle_reveal_folder ask_remove cancel_remove
click_row c n p = if not (has_row n p) then p else elim (row_view p n) [
  | confirming ↦ elim c [ cancel ↦ cancel_remove p | remove ↦ handle_remove_node n.dir p | _ ↦ p ]
  | entry current shows_trash ↦ elim c [
    | switch ↦ handle_switch_node n p
    | reveal ↦ handle_reveal_folder n.dir p
    | trash ↦ if shows_trash then ask_remove n.dir p else p
    | _ ↦ p
  ]
]

same_dir : (n : Recent) → str_eq n.dir n.dir ≡ true
same_dir n = grind string_tests

-- the bin of a node that is not the current one arms its removal
trash-ask :
    (n : Recent) (p : MainPage)
    → has_row n p ≡ true
    → is_current p n ≡ false
    → is_confirming n.dir p.confirm_remove ≡ false
    → click_row trash n p ≡ ask_remove n.dir p
unfolding click_row row_view
trash-ask n p o h k = simp (click_row, o, row_view, k, h)

confirming-remove :
    (n : Recent) (q : MainPage)
    → has_row n q ≡ true
    → is_confirming n.dir q.confirm_remove ≡ true
    → (row_view q n ≡ confirming) × ((click_row remove n q).out ≡ remove_node n.dir ∷ q.out)
unfolding click_row row_view handle_remove_node
confirming-remove n q o k = (rw k refl, rw (click_row, o, row_view, k, handle_remove_node, k) refl)

-- Choosing a directory in the dialog, with the answers to its requests: the settings of the directory are
-- saved, or that fails with `e` and no start follows.
unfoldable pub choose_dir : String → Stored → Failure → MainPage → MainPage
unfolding choose_node_dir dir_picked pick_checked pick_configured pick_saved
choose_dir dir cfg e p = pick_saved (err e) (
    pick_configured dir (ok cfg)
      (pick_checked dir (ok true) (dir_picked (picked dir) (choose_node_dir p))))

-- opening the sheet again, from a render that has nodes to show
unfoldable pub open_sheet : MainPage → Outcome (Option (List Recent)) → MainPage → MainPage
unfolding handle_open_existing existing_listed
open_sheet shown o p = existing_listed shown o (handle_open_existing p)

same_after_failure :
    (e : Failure) (p : MainPage)
    → ((pick_saved (err e) p).confirm_remove ≡ p.confirm_remove)
      × ((pick_saved (err e) p).config ≡ p.config)
unfolding pick_saved choice_failed
same_after_failure e p = ground arith

open_sheet-IsOpen :
    (n : Recent) (ns : List Recent) (shown p : MainPage)
    → is_listed n.dir ns ≡ true
    → is_empty shown.recent_nodes ≡ false
    → let q = open_sheet shown (ok (some ns)) p in
      (has_row n q ≡ true) × (q.confirm_remove ≡ p.confirm_remove) × (q.config ≡ p.config)
unfolding has_row open_sheet existing_listed handle_open_existing recent_came
open_sheet-IsOpen n ns shown p l h = rw h (l, refl, refl)

-- the chosen directory is that of the node whose removal is armed
chosen-Armed :
    (n : Recent) (cfg : Stored) (e : Failure) (p : MainPage)
    → str_eq n.dir "" ≡ false
    → has_row n p ≡ true
    → is_current p n ≡ false
    → is_confirming n.dir p.confirm_remove ≡ false
    → let c = choose_dir n.dir cfg e (click_row trash n p) in
      (is_confirming n.dir c.confirm_remove ≡ true) × (str_eq n.dir c.config.node_dir ≡ true)
unfolding choose_dir ask_remove look_into dir_picked pick_checked pick_configured choose_node_dir
chosen-Armed n cfg e p d s h k =
    let b = pick_configured n.dir (ok cfg) (
      pick_checked n.dir (ok true)
        (dir_picked (picked n.dir) (choose_node_dir (ask_remove n.dir p)))) in
    let f = same_after_failure e b in rw (trash-ask n p s h k, f.0, f.1, d) (same_dir n, same_dir n)

-- The bin is not there for the current node, yet the current node can be removed: if in the open sheet the
-- bin of another node is clicked, then the directory of that node is chosen in the dialog, its settings
-- cannot be saved, so that no start follows, and the sheet is opened again and lists the node, then the
-- node is the current one, its row still asks for the confirmation, and the button there asks for its
-- removal.
pub current_node_is_removed :
    (n : Recent) (cfg : Stored) (e : Failure) (ns : List Recent) (shown p : MainPage)
    → str_eq n.dir "" ≡ false
    → has_row n p ≡ true
    → is_current p n ≡ false
    → is_confirming n.dir p.confirm_remove ≡ false
    → is_empty shown.recent_nodes ≡ false
    → is_listed n.dir ns ≡ true
    → let q = open_sheet shown (ok (some ns)) (choose_dir n.dir cfg e (click_row trash n p)) in
      (is_current q n ≡ true)
      × (row_view q n ≡ confirming)
      × ((click_row remove n q).out ≡ remove_node n.dir ∷ q.out)
current_node_is_removed n cfg e ns shown p d s h k r l =
    let c = choose_dir n.dir cfg e (click_row trash n p) in
    let q = open_sheet shown (ok (some ns)) c in
    let w = open_sheet-IsOpen n ns shown c l r in
    let a = chosen-Armed n cfg e p d s h k in
    let armed : is_confirming n.dir q.confirm_remove ≡ true = rw w.1 a.0 in
    let f = confirming-remove n q w.0 armed in (rw w.2 a.1, f.0, f.1)
