-- ===== src/Main/Steps.antt =====
-- The main page over time: what the user does, how the awaited calls end, the events of the backend,
-- the timers, and the renders with their effects. An input that ends an awaited call carries what its
-- handler captured before.
use lokinode.Common.{Bool, List, Option, String, if◌then◌else◌, ℕ, ◌≤◌}
use lokinode.Daemon.{InfoResponse, StateEvent}
use lokinode.Fetcher.{Outcome}
use lokinode.Session.{Fetched, LastNode, fetch_last_node}
use lokinode.Node.Steps.{is_due}
use lokinode.Main.Page.{MainPage, Recent, Stored}
use lokinode.Main.Start.{config_came, start_done, click_power, verify_done}
use lokinode.Main.Alias.{
  alias_fires, alias_saved, blur_alias, handle_edit_alias, handle_save_alias, type_alias,
}
use lokinode.Main.Nodes.{
  Picked, ask_remove, cancel_remove, choose_node_dir, click_outside_sheet, default_dir_came,
  dir_looked_into, dir_picked, existing_listed, folder_revealed, handle_open_existing,
  handle_remove_node, handle_reveal_folder, handle_switch_node, node_removed, pick_checked,
  pick_configured, pick_listed, pick_saved, recent_came, sheet_cancel, sheet_down, sheet_move,
  sheet_up, switch_listed, switch_saved,
}
use lokinode.Main.Effects.{auto_start_fires, commit, handle_esc, safety_fires}

abbrev Done : Type 0
Done = Outcome (Unit {0})

pub data Input : Type 0 where
  -- the user
  power_clicked escape_pressed edit_clicked save_clicked field_left : Input
  alias_typed remove_clicked trash_clicked reveal_clicked : String → Input
  node_clicked : Recent → Input
  cancel_clicked existing_clicked browse_clicked outside_clicked drag_cancelled : Input
  pressed_at moved_to released_at : ℕ → Input
  -- the ends of the awaited calls
  start_config_came : (dir alias : String) → Outcome Stored → Input
  verify_came : Done → Input
  start_came : String → Done → Input
  alias_came : Done → Input
  last_came : Fetched (Option LastNode) → Input
  existence_came : Outcome Bool → Input
  default_came : Picked → Input
  list_came : Outcome (Option (List Recent)) → Input
  switch_saved_came : Done → Input
  switch_listed_came : Recent → Outcome (Option (List Recent)) → Input
  reveal_came : Option String → Input
  removal_came : String → Done → Input
  picked_came : Picked → Input
  pick_checked_came : String → Outcome Bool → Input
  pick_config_came : String → Outcome Stored → Input
  pick_saved_came : Done → Input
  pick_listed_came : String → Outcome (Option (List Recent)) → Input
  existing_came : MainPage → Outcome (Option (List Recent)) → Input
  -- the backend
  event_came : Option StateEvent → Input
  info_came : Option InfoResponse → Input
  -- the timers
  safety_due auto_start_due alias_due : Input

unfoldable pub handle : ℕ → Input → MainPage → MainPage
unfolding alias_fires alias_saved ask_remove auto_start_fires blur_alias cancel_remove
    choose_node_dir click_outside_sheet config_came default_dir_came dir_looked_into dir_picked
    existing_listed folder_revealed handle_edit_alias handle_esc handle_open_existing
    handle_remove_node handle_reveal_folder handle_save_alias handle_switch_node node_removed
    pick_checked pick_configured pick_listed pick_saved recent_came safety_fires sheet_cancel
    sheet_down sheet_move sheet_up start_done click_power switch_listed switch_saved type_alias
    verify_done fetch_last_node
handle now power_clicked p = click_power p
handle now escape_pressed p = handle_esc p
handle now edit_clicked p = handle_edit_alias p
handle now save_clicked p = handle_save_alias now p
handle now field_left p = blur_alias now p
handle now (alias_typed v) p = type_alias v p
handle now (remove_clicked dir) p = handle_remove_node dir p
handle now (trash_clicked dir) p = ask_remove dir p
handle now (reveal_clicked dir) p = handle_reveal_folder dir p
handle now (node_clicked n) p = handle_switch_node n p
handle now cancel_clicked p = cancel_remove p
handle now existing_clicked p = handle_open_existing p
handle now browse_clicked p = choose_node_dir p
handle now outside_clicked p = click_outside_sheet p
handle now drag_cancelled p = sheet_cancel p
handle now (pressed_at y) p = sheet_down y p
handle now (moved_to y) p = sheet_move y p
handle now (released_at y) p = sheet_up y p
handle now (start_config_came dir alias o) p = config_came dir alias o p
handle now (verify_came o) p = verify_done o p
handle now (start_came alias o) p = start_done alias o p
handle now (alias_came o) p = alias_saved now o p
handle now (last_came o) p = record p { config = fetch_last_node o p.config }
handle now (existence_came o) p = dir_looked_into o p
handle now (default_came o) p = default_dir_came o p
handle now (list_came o) p = recent_came o p
handle now (switch_saved_came o) p = switch_saved o p
handle now (switch_listed_came n o) p = switch_listed n o p
handle now (reveal_came o) p = folder_revealed o p
handle now (removal_came dir o) p = node_removed dir o p
handle now (picked_came o) p = dir_picked o p
handle now (pick_checked_came dir o) p = pick_checked dir o p
handle now (pick_config_came dir o) p = pick_configured dir o p
handle now (pick_saved_came o) p = pick_saved o p
handle now (pick_listed_came dir o) p = pick_listed dir o p
handle now (existing_came shown o) p = existing_listed shown o p
handle now (event_came e) p = record p { event = e }
handle now (info_came i) p = record p { info = i }
handle now safety_due p = if is_due now p.safety_timer then safety_fires p else p
handle now auto_start_due p = if is_due now p.auto_start_timer then auto_start_fires p else p
handle now alias_due p = if is_due now p.alias_timer then alias_fires p else p

-- the page, and its last render
pub record Mounted : Type 0 where
  pub rendered : MainPage
  pub page : MainPage

-- One step at the time `now`. Inputs may come between a change and the render that shows it.
pub data Step (now : ℕ) (m : Mounted) : Mounted → Type 0 where
  input : (i : Input) → Step now m (record m { page = handle now i m.page })
  render : Step now m (record { rendered = m.page; page = commit now m.rendered m.page })

-- the steps from the first render on, at times that do not fall
pub data Reach (m : Mounted) : ℕ → Mounted → Type 0 where
  here : (now : ℕ) → Reach m now m
  next :
      {now : ℕ} {n o : Mounted} (later : ℕ)
      → now ≤ later
      → Reach m now n
      → Step later n o
      → Reach m later o
