-- ===== src/Main/Nodes.antt =====
-- The nodes that the main page knows and the directories that it looks into, in
-- frontend/src/pages/Main/Main.tsx. `Outcome` is the end of a request, and `Picked` that of a call of
-- the window.
use lokinode.Common.{
  Bool, List, Option, String, [], codes, false, if◌then◌else◌, includes, is_empty, leb, lower, none,
  not, or_else, some, str_eq, true, ℕ, ◌&&◌, ◌-◌, ◌||◌, ◌∷◌,
}
use lokinode.Fetcher.{Outcome, failure_text, ok, err}
use lokinode.Session.{
  default_rest_cors, default_rest_listen, default_rpc_listen, set_alias_name, set_node_dir,
  set_pub_key,
}
use lokinode.Main.Page.{
  MainPage, Recent, Settings, Stored, call, check_dir, get_config, list_nodes, open_selector,
  post_config, remove_node, reveal_folder, toast_shown,
}
use lokinode.Main.Start.{or_text, perform_start}

-- what the dialog for a directory gives, or the text of its exception
pub data Picked : Type 0 where
  picked refused : String → Picked

-- ── `checkDir`
unfoldable pub look_into : String → MainPage → MainPage
look_into dir p = call (check_dir dir) p

unfoldable pub dir_looked_into : Outcome Bool → MainPage → MainPage
dir_looked_into (ok exists) p = record p { existing_dir = exists }
dir_looked_into (err e) p = p

unfoldable pub default_dir_came : Picked → MainPage → MainPage
unfolding look_into
default_dir_came (picked dir) p =
    if str_eq dir "" then p else look_into dir (record p { config = set_node_dir dir p.config })
default_dir_came (refused text) p = p

-- ── `fetchRecent`
unfoldable pub fetch_recent : MainPage → MainPage
fetch_recent p = call list_nodes p

unfoldable pub recent_came : Outcome (Option (List Recent)) → MainPage → MainPage
recent_came (ok nodes) p = record p { recent_nodes = or_else nodes [] }
recent_came (err e) p = p

-- ── `handleSwitchNode`
abbrev pub settings_of_recent : Recent → Settings
settings_of_recent n = record {
  dir = n.dir;
  alias = n.alias;
  rest_cors = or_text n.rest_cors default_rest_cors;
  rpc_listen = or_text n.rpc_listen default_rpc_listen;
  rest_listen = or_text n.rest_listen default_rest_listen;
  node_public = or_else n.node_public true;
  ip = n.external_ip;
}

unfoldable pub handle_switch_node : Recent → MainPage → MainPage
handle_switch_node n p = call (post_config n.pub_key (settings_of_recent n)) (record p {
  show_recent = false;
  config = set_pub_key n.pub_key (set_alias_name n.alias (set_node_dir n.dir p.config));
})

-- after the `await` of the saved configuration; its failure leaves the handler
unfoldable pub switch_saved : Outcome (Unit {0}) → MainPage → MainPage
unfolding fetch_recent
switch_saved (ok _) p = fetch_recent p
switch_saved (err e) p = p

-- after that of the list
unfoldable pub switch_listed : Recent → Outcome (Option (List Recent)) → MainPage → MainPage
unfolding recent_came perform_start
switch_listed n o p = perform_start n.dir (recent_came o p)

-- ── `handleRevealFolder`
unfoldable pub handle_reveal_folder : String → MainPage → MainPage
handle_reveal_folder dir p = call (reveal_folder dir) p

unfoldable pub folder_revealed : Option String → MainPage → MainPage
folder_revealed none p = p
folder_revealed (some text) p = call (toast_shown "node.errors.open_folder_failed" text) p

-- ── `handleRemoveNode`, with the buttons that arm it and cancel it
abbrev pub is_confirming : String → Option String → Bool
is_confirming dir none = false
is_confirming dir (some armed) = str_eq armed dir

unfoldable pub handle_remove_node : String → MainPage → MainPage
handle_remove_node dir p =
    if is_confirming dir p.confirm_remove
    then call (remove_node dir) (record p { confirm_remove = none })
    else record p { confirm_remove = some dir }

unfoldable pub without_dir : String → List Recent → List Recent
without_dir dir [] = []
without_dir dir (n ∷ ns) =
    let rest = without_dir dir ns in if not (str_eq n.dir dir) then n ∷ rest else rest

unfoldable pub node_removed : String → Outcome (Unit {0}) → MainPage → MainPage
unfolding without_dir
node_removed dir (ok _) p = record p { recent_nodes = without_dir dir p.recent_nodes }
node_removed dir (err e) p = p

unfoldable pub ask_remove : String → MainPage → MainPage
ask_remove dir p = record p { confirm_remove = some dir }

unfoldable pub cancel_remove : MainPage → MainPage
cancel_remove p = record p { confirm_remove = none }

-- ── `chooseNodeDir`
unfoldable pub choose_from : String → MainPage → MainPage
choose_from shown_dir p = call (open_selector shown_dir) (record p { show_recent = false })

unfoldable pub choose_node_dir : MainPage → MainPage
unfolding choose_from
choose_node_dir p = choose_from p.config.node_dir p

-- its `catch`: the user who cancels the dialog is no error
unfoldable pub choice_failed : String → MainPage → MainPage
unfolding includes lower
choice_failed text p =
    if includes (lower (codes text)) (codes "cancel") || is_empty (codes text)
    then p
    else call (toast_shown "main.errors.dir_error" text) p

unfoldable pub dir_picked : Picked → MainPage → MainPage
unfolding choice_failed look_into
dir_picked (picked dir) p = if str_eq dir "" then p else look_into dir p
dir_picked (refused text) p = choice_failed text p

unfoldable pub pick_checked : String → Outcome Bool → MainPage → MainPage
unfolding choice_failed
pick_checked dir (ok exists) p =
    if exists
    then call (get_config dir) p
    else call (toast_shown "main.errors.node_error" "main.errors.not_a_node") p
pick_checked dir (err e) p = choice_failed (failure_text e) p

abbrev pub settings_of_stored : String → Stored → Settings
settings_of_stored dir cfg = record {
  dir = dir;
  alias = cfg.alias;
  rest_cors = or_text cfg.rest_cors default_rest_cors;
  rpc_listen = or_text cfg.rpc_listen default_rpc_listen;
  rest_listen = or_text cfg.rest_listen default_rest_listen;
  node_public = or_else cfg.node_public true;
  ip = cfg.node_ip;
}

unfoldable pub pick_configured : String → Outcome Stored → MainPage → MainPage
unfolding choice_failed
pick_configured dir (ok cfg) p =
    call (post_config cfg.pub_key (settings_of_stored dir cfg)) (record p {
      config = set_pub_key cfg.pub_key (set_alias_name cfg.alias (set_node_dir dir p.config));
      existing_dir = true;
    })
pick_configured dir (err e) p = choice_failed (failure_text e) p

unfoldable pub pick_saved : Outcome (Unit {0}) → MainPage → MainPage
unfolding choice_failed fetch_recent
pick_saved (ok _) p = fetch_recent p
pick_saved (err e) p = choice_failed (failure_text e) p

unfoldable pub pick_listed : String → Outcome (Option (List Recent)) → MainPage → MainPage
unfolding recent_came perform_start
pick_listed dir o p = perform_start dir (recent_came o p)

-- ── `handleOpenExisting`: `shown` is the render that the click happened in
unfoldable pub handle_open_existing : MainPage → MainPage
unfolding fetch_recent
handle_open_existing p = fetch_recent p

unfoldable pub existing_listed : MainPage → Outcome (Option (List Recent)) → MainPage → MainPage
unfolding recent_came choose_from
existing_listed shown o p =
    let q = recent_came o p in
    if is_empty shown.recent_nodes
    then choose_from shown.config.node_dir q
    else record q { show_recent = true }

-- ── The sheet of the recent nodes
unfoldable pub click_outside_sheet : MainPage → MainPage
click_outside_sheet p = record p { show_recent = false }

unfoldable pub sheet_down : ℕ → MainPage → MainPage
sheet_down y p = record p { is_dragging_sheet = true; sheet_drag_start = y }

-- `Math.max(0, y - start)` is the subtraction that stops at 0
unfoldable pub sheet_move : ℕ → MainPage → MainPage
sheet_move y p = if p.is_dragging_sheet then record p { sheet_drag = y - p.sheet_drag_start } else p

unfoldable pub sheet_up : ℕ → MainPage → MainPage
sheet_up y p =
    if p.is_dragging_sheet
    then record p {
      is_dragging_sheet = false;
      sheet_drag = 0;
      show_recent = if leb 80 (y - p.sheet_drag_start) then false else p.show_recent;
    }
    else p

unfoldable pub sheet_cancel : MainPage → MainPage
sheet_cancel p = record p { is_dragging_sheet = false; sheet_drag = 0 }

-- ── What the page shows: the power button, or only the ways to a node
abbrev pub has_stored_node : MainPage → Bool
has_stored_node p = not (str_eq p.config.node_dir "") && not (str_eq p.config.alias_name "")

abbrev pub has_prior_node : MainPage → Bool
has_prior_node p = has_stored_node p || p.existing_dir
