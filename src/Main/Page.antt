-- ===== src/Main/Page.antt =====
-- The state of the component `Main` of frontend/src/pages/Main/Main.tsx, with the stores and the data
-- that it reads. Times are in milliseconds; a timer that is set and has not fired is its `some` due
-- time. `out` lists the calls that leave the page, last first. `default_alias` is the translation of
-- main.default_alias in the language of the page; the texts of the toasts are translation keys.
use lokinode.Common.{Bool, List, Option, String, ℕ, ◌∷◌}
use lokinode.Daemon.{StateEvent, InfoResponse}
use lokinode.Session.{NodeConfig, NodeSession, Transition}

-- the answer of GET /api/node/config: NodeConfigDTO
pub record Stored : Type 0 where
  pub pub_key : String
  pub alias : String
  pub node_public : Option Bool
  pub node_ip : String
  pub rest_cors : String
  pub rpc_listen : String
  pub rest_listen : String

-- an entry of GET /api/node/list
pub record Recent : Type 0 where
  pub dir : String
  pub alias : String
  pub pub_key : String
  pub node_public : Option Bool
  pub external_ip : String
  pub rest_cors : String
  pub rpc_listen : String
  pub rest_listen : String

-- the body of /api/node/verify-config, and with the public key that of /api/node/config
pub record Settings : Type 0 where
  pub dir : String
  pub alias : String
  pub rest_cors : String
  pub rpc_listen : String
  pub rest_listen : String
  pub node_public : Bool
  pub ip : String

pub data Call : Type 0 where
  fetch_last get_default_dir list_nodes post_start : Call
  check_dir get_config remove_node reveal_folder open_selector : String → Call
  post_verify : Settings → Call
  post_config : String → Settings → Call
  patch_identity : (dir alias : String) → Call
  navigate : String → Call
  mutate_info : String → Call
  toast_shown : (title description : String) → Call

pub record MainPage : Type 0 where
  pub config : NodeConfig
  pub session : NodeSession
  pub transition : Transition
  pub event : Option StateEvent
  pub info : Option InfoResponse
  pub default_alias : String
  pub safety_timer : Option ℕ
  pub auto_start_timer : Option ℕ
  pub alias_timer : Option ℕ
  pub existing_dir : Bool
  pub auto_starting : Bool
  pub is_editing_alias : Bool
  pub temp_alias : String
  pub alias_loading : Bool
  pub alias_error : Option String
  pub alias_success : Bool
  pub recent_nodes : List Recent
  pub show_recent : Bool
  pub confirm_remove : Option String
  pub sheet_drag : ℕ
  pub sheet_drag_start : ℕ
  pub is_dragging_sheet : Bool
  pub out : List Call

-- a call that leaves the page
abbrev pub call : Call → MainPage → MainPage
call c p = record p { out = c ∷ p.out }
