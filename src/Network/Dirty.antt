-- ===== src/Network/Dirty.antt =====
-- The form of frontend/src/views/settings/Network.tsx against the saved configuration and the running
-- daemon.
use lokinode.Session.{default_rest_listen, default_rpc_listen, default_rest_cors}
use lokinode.Common.{
  Bool, Option, Text, [], arith, codes, false, none, not, or_else, some, text_eq, true, ◌&&◌, ◌||◌,
  ◌↔◌, ◌∷◌, ◌≡◌,
}
use lokinode.Daemon.{DaemonState, InfoResponse, ready, syncing, scanning, block, tx, locked}
use lokinode.Network.{NetworkForm}

-- the answer of /api/node/config
pub record Config : Type 0 where
  pub alias : Text
  pub node_public : Option Bool
  pub node_ip : Text
  pub rest_cors : Text
  pub rpc_listen : Text
  pub rest_listen : Text

-- `t || default`
abbrev pub or_text : Text → Text → Text
or_text [] default = default
or_text (c ∷ t) default = c ∷ t

unfoldable pub loaded : Config → NetworkForm
loaded cfg = record {
  alias = cfg.alias;
  node_public = or_else cfg.node_public true;
  node_ip = cfg.node_ip;
  rest_cors = or_text cfg.rest_cors (codes default_rest_cors);
  rpc_listen = or_text cfg.rpc_listen (codes default_rpc_listen);
  rest_listen = or_text cfg.rest_listen (codes default_rest_listen);
}

-- the states in which the daemon has a configuration to compare with
abbrev pub is_active_state : DaemonState → Bool
is_active_state ready = true
is_active_state syncing = true
is_active_state scanning = true
is_active_state block = true
is_active_state tx = true
is_active_state locked = true
is_active_state _ = false

abbrev pub same : Bool → Bool → Bool
same true b = b
same false b = not b

-- what the daemon runs with differs from the form
unfoldable pub differs : NetworkForm → InfoResponse → Bool
unfolding text_eq
differs f info =
    not (same info.node_public f.node_public)
    || (f.node_public && not (text_eq (codes info.external_ip) f.node_ip))
    || not (text_eq (codes info.rest_cors) f.rest_cors)
    || not (text_eq (codes info.node_alias) f.alias)

unfoldable pub is_dirty : Option NetworkForm → Option InfoResponse → Bool
unfolding differs
is_dirty none info = false
is_dirty (some f) none = false
is_dirty (some f) (some info) = info.node_running && is_active_state info.state && differs f info

text_eq_iff : (s t : Text) → (text_eq s t ≡ true) ↔ (s ≡ t)
unfolding text_eq
text_eq_iff [] [] = ground arith
text_eq_iff [] (d ∷ t) = ground arith
text_eq_iff (c ∷ s) [] = ground arith
text_eq_iff (c ∷ s) (d ∷ t) = let h = text_eq_iff s t in ground arith

-- The daemon runs with what the form says.
pub Applied : NetworkForm → InfoResponse → Type 0
Applied f info =
    (info.node_public ≡ f.node_public)
    × (f.node_public ≡ true → codes info.external_ip ≡ f.node_ip)
    × (codes info.rest_cors ≡ f.rest_cors)
    × (codes info.node_alias ≡ f.alias)

-- While a daemon runs in one of the states in which it has a configuration, the page asks for a restart
-- exactly if the daemon does not run with what the form says: its alias, its origins, whether the
-- node is public and, if it is to be, its address.
pub is_dirty_iff :
    (f : NetworkForm) (info : InfoResponse)
    → info.node_running ≡ true
    → is_active_state info.state ≡ true
    → (is_dirty (some f) (some info) ≡ false) ↔ Applied f info
unfolding is_dirty differs Applied
is_dirty_iff f info r a = ground (
  arith,
  text_eq_iff (codes info.external_ip) f.node_ip,
  text_eq_iff (codes info.rest_cors) f.rest_cors,
  text_eq_iff (codes info.node_alias) f.alias,
)
