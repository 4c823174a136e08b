-- ===== src/Network/Tests.antt =====
-- The form of frontend/src/views/settings/Network.tsx at concrete inputs.
use lokinode.Common.{
  Option, Text, [], arith, codes, false, if◌then◌else◌, is_empty, length, none, refl, some, text_eq,
  true, ◌↔◌, ◌∷◌, ◌≡◌, ◌⊎◌,
}
use lokinode.Session.{initial_session}
use lokinode.Clipboard.{initial_copier}
use lokinode.Clipboard.Credentials.{Row, hex, macaroon, click, click_copy, display, step}
use lokinode.Clipboard.Hidden.{IsCopied, step-IsCopied}
use lokinode.Network.Autosave.{
  clear_timer, follow_dir, is_changed, watch_form, edit, form_loaded, Autosave, Mounted, commit,
  edited, handle, loaded, input, render, mounted,
}
use lokinode.Network.Saves.{due_save_is_rendered, reverted_edit_stays_saved, at_rest, reverted}
use lokinode.Network.{
  save_config, matches, NetworkForm, Url, Page, is_valid_cors, with_port, handle_apply_and_restart,
}
use lokinode.Regex.Expr.{matches}
use lokinode.Network.Dirty.{Applied, is_dirty, is_dirty_iff}
use lokinode.Daemon.{locked, InfoResponse, ready}
use lokinode.Network.Apply.{Confirmed, apply_saves_valid_form}

-- a parser that knows one origin
abbrev known : Text → Option Url
unfolding text_eq
known t =
    if text_eq t (codes "http://a")
    then some (record { protocol = codes "http:"; pathname = codes "/"; search = []; hash = [] })
    else none

two_origins : is_valid_cors known (codes "http://a, *") ≡ true
unfolding is_valid_cors known
two_origins = refl

unknown_origin : is_valid_cors known (codes "http://a,b") ≡ false
unfolding is_valid_cors known
unknown_origin = refl

port_added : with_port (codes " 1.2.3.4") ≡ codes "1.2.3.4:5521"
unfolding with_port
port_added = refl

ipv6_keeps : with_port (codes "[::1]") ≡ codes "[::1]"
unfolding with_port
ipv6_keeps = refl

abbrev good_form : NetworkForm
good_form = record {
  alias = codes "a";
  node_public = true;
  node_ip = codes "1.2.3.4";
  rest_cors = codes "*";
  rpc_listen = [];
  rest_listen = [];
}

abbrev armed : Page
armed = record {
  session = initial_session;
  node_dir = codes "/d";
  pub_key = codes "k";
  alias_name = [];
  form = some good_form;
  saved_form = none;
  restart_armed = true;
  restarting = false;
  restart_timer = some 3000;
  at_node = false;
  posts = [];
}

saves : length (handle_apply_and_restart known 0 armed).posts ≡ 1
unfolding handle_apply_and_restart matches
saves = refl

apply_saves_valid_form_example :
    let q = handle_apply_and_restart known 0 armed in
    (q.posts ≡ []) ⊎ ((f : NetworkForm) × Confirmed known armed q f)
apply_saves_valid_form_example = apply_saves_valid_form known 0 armed

abbrev running : InfoResponse
running = record {
  version = "";
  latest_version = "";
  synced_to_chain = true;
  block_height = 1;
  mempool_height = 0;
  best_header_timestamp = 0;
  node_pubkey = "";
  node_alias = "b";
  state = ready;
  error = none;
  node_running = true;
  another_instance = none;
  port_conflict = none;
  neutrino_corrupted = none;
  node_public = true;
  external_ip = "1.2.3.4";
  rest_cors = "*";
  network = "main";
  node_dir = "/d";
  rest_endpoint = "127.0.0.1:5050";
  macaroon_path = "/d/admin.macaroon";
  tls_cert_path = "/d/tls.cert";
  peer_address = "";
  rpc_address = "127.0.0.1:10005";
  macaroon_hex = "0201";
  tls_cert_hex = "";
}

renamed_is_dirty : is_dirty (some good_form) (some running) ≡ true
unfolding is_dirty
renamed_is_dirty = refl

is_dirty_iff_example :
    (is_dirty (some good_form) (some running) ≡ false) ↔ Applied good_form running
is_dirty_iff_example = is_dirty_iff good_form running refl refl

abbrev unloaded : Autosave
unloaded = record {
  form = none;
  form_no = 0;
  saved_form = none;
  node_dir = codes "/d";
  pub_key = codes "k";
  node_running = false;
  timer = none;
  timer_dir = [];
  timer_key = [];
  posts = [];
}

abbrev edited_form : NetworkForm
edited_form = record good_form { rest_cors = [] }

abbrev take_over : NetworkForm → NetworkForm → NetworkForm
take_over f g = f

abbrev before : Mounted
before = record {
  rendered = unloaded;
  page = handle 5 (edited (take_over edited_form)) (handle 4 (loaded good_form) unloaded);
}

abbrev after : Mounted
after = record { rendered = before.page; page = commit 6 before.rendered before.page }

due_save_is_rendered_example :
    (after.rendered.form ≡ some edited_form)
    × (after.rendered.node_running ≡ false)
    × (is_empty after.rendered.node_dir ≡ false)
due_save_is_rendered_example =
    due_save_is_rendered unloaded after
      (render 6 before (
        input 5 (edited (take_over edited_form))
          (record { rendered = unloaded; page = handle 4 (loaded good_form) unloaded })
          (input 4 (loaded good_form) (record { rendered = unloaded; page = unloaded })
            (mounted refl refl))))
      806 edited_form
      (unfold commit clear_timer follow_dir handle is_changed watch_form text_eq edit form_loaded in
        refl)

reverted_edit_stays_saved_example :
    reverted 0 900 1000
      (take_over edited_form)
      (take_over good_form)
      good_form
      (at_rest (codes "/d") [] good_form 0 good_form none [])
    ≡ at_rest
        (codes "/d")
        []
        good_form
        2
        edited_form
        none
        (save_config (codes "/d") [] edited_form ∷ [])
reverted_edit_stays_saved_example =
    reverted_edit_stays_saved 0 900 1000 0 (take_over edited_form) (take_over good_form) good_form
      (codes "/d") [] [] refl (unfold text_eq in refl) refl (omega arith)

-- the wallet is locked, and the row shows the hexadecimal text
abbrev hex_row : Row
hex_row = record { mode = hex; copier = initial_copier }

locked_copies_nothing :
    click_copy macaroon (some (record running { state = locked })) hex_row ≡ hex_row
unfolding click_copy display
locked_copies_nothing = refl

step-IsCopied_example :
    IsCopied macaroon (some running) hex_row (step macaroon 0 (some running) click hex_row)
step-IsCopied_example = step-IsCopied macaroon 0 (some running) click hex_row
