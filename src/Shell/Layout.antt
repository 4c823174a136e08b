-- ===== src/Shell/Layout.antt =====
-- The layout of every page and the loader of the page of the node, frontend/src/App.tsx.
use lokinode.Common.{
  Bool, List, Option, String, false, if◌then◌else◌, none, not, some, str_eq, true, ◌&&◌, ◌||◌, ◌∷◌,
}
use lokinode.Daemon.{InfoResponse}
use lokinode.Fetcher.{Outcome, ok, err}
use lokinode.Session.{NodeConfig, set_alias_name, set_pub_key}

-- the body of the request to /api/node/identity
pub record Identity : Type 0 where
  pub dir : String
  pub pub_key : String

-- The shared configuration, the data of /api/info, the default name in the language of the page, and the
-- requests to /api/node/identity, last first.
pub record Shell : Type 0 where
  pub config : NodeConfig
  pub info : Option InfoResponse
  pub default_alias : String
  pub sent : List Identity

abbrev pub is_empty_text : String → Bool
is_empty_text s = str_eq s ""

unfoldable pub sync_key : String → Shell → Shell
sync_key key p = if str_eq key p.config.pub_key then p else record p {
  config = set_pub_key key p.config;
  sent =
      if is_empty_text p.config.node_dir
      then p.sent
      else record { dir = p.config.node_dir; pub_key = key } ∷ p.sent;
}

unfoldable pub sync_alias : String → Shell → Shell
sync_alias name p =
    let old = p.config.alias_name in
    let is_default = is_empty_text old || str_eq old p.default_alias in
    if not (is_empty_text name) && is_default && not (str_eq name old)
    then record p { config = set_alias_name name p.config }
    else p

-- the effect that keeps the public key and the name
unfoldable pub sync_from : Option InfoResponse → Shell → Shell
unfolding sync_key sync_alias
sync_from none p = p
sync_from (some i) p =
    if not i.node_running || is_empty_text i.node_pubkey
    then p
    else sync_alias i.node_alias (sync_key i.node_pubkey p)

unfoldable pub sync : Shell → Shell
unfolding sync_from
sync p = sync_from p.info p

-- `nodeLoader`: does it redirect to the main page? `before` and `after` are the flag `isRestarting` at its
-- two readings, and the outcome is `nodeRunning` of /api/info.
unfoldable pub node_loader : Bool → Outcome Bool → Bool → Bool
node_loader true o after = false
node_loader false (ok running) after = not running
node_loader false (err e) after = not after
