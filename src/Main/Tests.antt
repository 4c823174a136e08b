-- ===== src/Main/Tests.antt =====
-- Main pages, and the theorems about them at those pages.
use lokinode.Common.{[], arith, false, none, refl, some, true, ◌∷◌, ◌≡◌, ◌⊎◌}
use lokinode.Fetcher.{api_error, err, ok}
use lokinode.Session.{initial_session}
use lokinode.Main.Sheet.{
  has_row, is_listed, open_sheet, choose_dir, click_row, trash, remove, is_current, row_view,
  confirming, current_node_is_removed,
}
use lokinode.Main.Page.{remove_node, Recent, MainPage, Stored}
use lokinode.Main.Start.{Answers, perform_start_with}
use lokinode.Main.Effects.{mount}
use lokinode.Main.Steps.{
  Mounted, escape_pressed, handle, here, input, next, remove_clicked, safety_due,
}
use lokinode.Main.Overlay.{mounted}
use lokinode.Main.Covered.{started_at, start_keeps_overlay}
use lokinode.Daemon.{locked}
use lokinode.Node.Commit.{commit}
use lokinode.Main.Unlocks.{started_node_asks_for_password}
use lokinode.Main.Stopped.{stopped, stopped_node_is_left}
use lokinode.Node.Page.{Page, navigate_home, post_stop}
use lokinode.Session.{end_transition}
use lokinode.Main.Removal.{Move, protocol, removal_refines}

abbrev home : MainPage
home = record {
  config = record { node_dir = "/node"; pub_key = ""; alias_name = "loki" };
  session = initial_session;
  transition = record { is_active = false; label = ""; sublabel = none };
  event = none;
  info = none;
  default_alias = "My node";
  safety_timer = none;
  auto_start_timer = none;
  alias_timer = none;
  existing_dir = false;
  auto_starting = false;
  is_editing_alias = false;
  temp_alias = "";
  alias_loading = false;
  alias_error = none;
  alias_success = false;
  recent_nodes = [];
  show_recent = false;
  confirm_remove = none;
  sheet_drag = 0;
  sheet_drag_start = 0;
  is_dragging_sheet = false;
  out = [];
}

abbrev stored : Stored
stored = record {
  pub_key = "";
  alias = "";
  node_public = none;
  node_ip = "";
  rest_cors = "";
  rpc_listen = "";
  rest_listen = "";
}

-- the daemon does not start
abbrev refusing : Answers
refusing = record { config = ok stored; verify = ok tt; start = err (api_error 500 "busy") }

-- the page of a node that runs
abbrev node_page : Page
node_page = record {
  session = initial_session;
  transition = end_transition;
  event = none;
  event_no = 0;
  info = none;
  info_no = 0;
  password = "";
  show_unlock = false;
  is_unlocking = false;
  pwd_error = false;
  is_stopping = false;
  is_locking = false;
  is_retrying = false;
  is_recovering = false;
  restart_stalled = false;
  boot_stalled_since = 0;
  stop_armed = false;
  stop_arm_timer = none;
  lock_timer = none;
  restart_timer = none;
  stall_timer = none;
  navigating_away = false;
  seen_restart_progress = false;
  restart_in_flight = false;
  recovery_in_flight = false;
  last_block_at = 0;
  show_password = false;
  show_logs = false;
  sheet_drag = 0;
  sheet_drag_start = 0;
  is_dragging_sheet = false;
  out = [];
}

abbrev stopping : MainPage
stopping = record home {
  session = (stopped node_page).session;
  transition = (stopped node_page).transition;
}

abbrev pressed : Mounted
pressed = record (mounted 1000 stopping) { page = handle 5000 escape_pressed (mount 1000 stopping) }

-- Escape takes no stop back
still_stopped : pressed.page.session.user_stopped ≡ true
unfolding stopped handle mount
still_stopped = refl

stopped_node_is_left_example :
    ((stopped node_page).out ≡ navigate_home ∷ post_stop ∷ [])
    × (stopping.transition.is_active ≡ true)
    × ((pressed.page.transition.is_active ≡ false) ⊎ (pressed.page.safety_timer ≡ some 11000))
    × ((handle 11000 safety_due pressed.page).transition.is_active ≡ false)
stopped_node_is_left_example =
    stopped_node_is_left node_page 1000 5000 11000 stopping pressed refl refl refl refl
      (next 5000 (omega arith) (here 1000) (input escape_pressed)) still_stopped (omega arith)

start_keeps_overlay_example :
    (handle 30000 safety_due (started_at 5000 stopping).page).transition.is_active ≡ true
start_keeps_overlay_example =
    start_keeps_overlay 5000 30000 stopping
      (record (started_at 5000 stopping) {
        page = handle 30000 safety_due (started_at 5000 stopping).page;
      })
      (unfold stopped in refl) refl (next 30000 (omega arith) (here 5000) (input safety_due))

abbrev armed_home : Mounted
armed_home = record { rendered = home; page = record home { confirm_remove = some "/old" } }

removal_refines_example :
    Move (protocol armed_home.page) (protocol (handle 7 (remove_clicked "/old") armed_home.page))
removal_refines_example =
    removal_refines 7 armed_home
      (record armed_home { page = handle 7 (remove_clicked "/old") armed_home.page })
      (input (remove_clicked "/old"))

abbrev willing : Answers
willing = record { config = ok stored; verify = ok tt; start = ok tt }

-- the page of the node when the daemon reports that its wallet is locked
abbrev locked_page : Page
locked_page = record node_page {
  session = (perform_start_with willing "/node" "loki" home).session;
  event = some (record {
    state = locked;
    node_running = true;
    error = none;
    port_conflict = none;
    another_instance = none;
    neutrino_corrupted = none;
    block_height = none;
    block_hash = none;
    synced_height = none;
    transaction = none;
    mempool_height = none;
    best_header_timestamp = none;
  });
  event_no = 1;
}

started_node_asks_for_password_example :
    ((commit 9 node_page locked_page).show_unlock ≡ true)
    × ((commit 9 node_page locked_page).session.auto_unlock_pending ≡ false)
started_node_asks_for_password_example =
    started_node_asks_for_password willing "/node" "loki" home stored refl refl refl refl refl 9
      node_page locked_page refl refl refl refl

-- another node of the list
abbrev spare : Recent
spare = record {
  dir = "/spare";
  alias = "spare";
  pub_key = "03cd";
  rest_cors = "";
  rpc_listen = "";
  rest_listen = "";
  node_public = none;
  external_ip = "";
}

-- the sheet lists a node that is not the current one
abbrev listing : MainPage
listing = record home { recent_nodes = spare ∷ []; show_recent = true }

listed : is_listed "/spare" (spare ∷ []) ≡ true
unfolding is_listed
listed = refl

has_spare : has_row spare listing ≡ true
unfolding has_row
has_spare = refl

current_node_is_removed_example :
    let q =
      open_sheet listing
        (ok (some (spare ∷ [])))
        (choose_dir "/spare" stored (api_error 500 "busy") (click_row trash spare listing)) in
    (is_current q spare ≡ true)
    × (row_view q spare ≡ confirming)
    × ((click_row remove spare q).out ≡ remove_node "/spare" ∷ q.out)
current_node_is_removed_example =
    current_node_is_removed spare stored (api_error 500 "busy") (spare ∷ []) listing listing refl
      has_spare refl refl refl listed
