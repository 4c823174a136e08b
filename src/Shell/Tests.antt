-- ===== src/Shell/Tests.antt =====
-- A layout and a notice of a release, and the theorems about them at those.
use lokinode.Common.{[], none, refl, some, true, ◌≡◌}
use lokinode.Daemon.{InfoResponse, ready}
use lokinode.Session.{initial_config}
use lokinode.Shell.Layout.{Shell, sync}
use lokinode.Shell.Settled.{sync_settles}

abbrev shell : Shell
shell = record {
  config = record initial_config { node_dir = "/node" };
  info = none;
  default_alias = "My node";
  sent = [];
}

abbrev running : InfoResponse
running = record {
  version = "";
  latest_version = "";
  synced_to_chain = true;
  block_height = 1;
  mempool_height = 0;
  best_header_timestamp = 0;
  node_pubkey = "02ab";
  node_alias = "loki";
  state = ready;
  error = none;
  node_running = true;
  another_instance = none;
  port_conflict = none;
  neutrino_corrupted = none;
  node_public = true;
  external_ip = "1.2.3.4";
  rest_cors = "*";
  network = "main";
  node_dir = "/d";
  rest_endpoint = "127.0.0.1:5050";
  macaroon_path = "/d/admin.macaroon";
  tls_cert_path = "/d/tls.cert";
  peer_address = "";
  rpc_address = "127.0.0.1:10005";
  macaroon_hex = "0201";
  tls_cert_hex = "";
}

abbrev found : Shell
found = record shell { info = some running }

found_settles : ((sync found).config.pub_key ≡ "02ab") × (sync (sync found) ≡ sync found)
found_settles = sync_settles running found refl refl refl
