-- ===== src/Session.antt =====
-- The stores that the pages share: frontend/src/store/nodeSession.ts, frontend/src/store/nodeConfig.ts
-- and the store of frontend/src/components/TransitionOverlay/TransitionOverlay.tsx. Zustand's
-- `set(partial)` is a record update.
use lokinode.Common.{Bool, Option, String, false, none, some, true}

abbrev pub default_rest_cors : String
default_rest_cors = "http://localhost:3000"

abbrev pub default_rpc_listen : String
default_rpc_listen = "127.0.0.1:10005"

abbrev pub default_rest_listen : String
default_rest_listen = "127.0.0.1:5050"

pub record NodeSession : Type 0 where
  pub wallet_unlocked : Bool
  pub user_stopped : Bool
  pub auto_unlock_pending : Bool
  pub is_restarting : Bool
  pub last_address : String

abbrev pub initial_session : NodeSession
initial_session = record {
  wallet_unlocked = false;
  user_stopped = false;
  auto_unlock_pending = false;
  is_restarting = false;
  last_address = "";
}

abbrev pub set_wallet_unlocked : Bool → NodeSession → NodeSession
set_wallet_unlocked v s = record s { wallet_unlocked = v }

abbrev pub set_user_stopped : Bool → NodeSession → NodeSession
set_user_stopped v s = record s { user_stopped = v }

abbrev pub set_auto_unlock_pending : Bool → NodeSession → NodeSession
set_auto_unlock_pending v s = record s { auto_unlock_pending = v }

abbrev pub set_is_restarting : Bool → NodeSession → NodeSession
set_is_restarting v s = record s { is_restarting = v }

abbrev pub clear_session : NodeSession → NodeSession
clear_session s = record s { wallet_unlocked = false; last_address = "" }

pub record Transition : Type 0 where
  pub is_active : Bool
  pub label : String
  pub sublabel : Option String

abbrev pub start_transition : String → Option String → Transition
start_transition label sublabel = record { is_active = true; label = label; sublabel = sublabel }

abbrev pub end_transition : Transition
end_transition = record { is_active = false; label = ""; sublabel = some "" }

pub record NodeConfig : Type 0 where
  pub node_dir : String
  pub pub_key : String
  pub alias_name : String

abbrev pub initial_config : NodeConfig
initial_config = record { node_dir = ""; pub_key = ""; alias_name = "" }

abbrev pub set_node_dir : String → NodeConfig → NodeConfig
set_node_dir v c = record c { node_dir = v }

abbrev pub set_pub_key : String → NodeConfig → NodeConfig
set_pub_key v c = record c { pub_key = v }

abbrev pub set_alias_name : String → NodeConfig → NodeConfig
set_alias_name v c = record c { alias_name = v }

-- the answer of GET /api/node/last
pub record LastNode : Type 0 where
  pub pub_key : String
  pub dir : String
  pub alias : String

-- what `fetcher` gives: the value, which may be `null`, or an exception
pub data Fetched {ℓ} (A : Type ℓ) : Type ℓ where
  answered : A → Fetched A
  failed : Fetched A

unfoldable pub fetch_last_node : Fetched (Option LastNode) → NodeConfig → NodeConfig
fetch_last_node (answered (some node)) c = record {
  node_dir = node.dir;
  pub_key = node.pub_key;
  alias_name = node.alias;
}
fetch_last_node (answered none) c = c
fetch_last_node failed c = c

-- what `partialize` keeps in the local storage, and the merge at the next start
abbrev pub partialize : NodeConfig → String
partialize c = c.node_dir

abbrev pub rehydrate : String → NodeConfig
rehydrate dir = record initial_config { node_dir = dir }
