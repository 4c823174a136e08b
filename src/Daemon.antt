-- ===== src/Daemon.antt =====
-- frontend/src/lib/types.ts: what the backend tells the frontend. The texts that the frontend
-- compares `state` with are constructors of `DaemonState`, and any other text is `other`. A key that
-- may be absent is an `Option`.
use lokinode.Common.{Bool, List, Option, String, ℕ, ℤ}

pub data DaemonState : Type 0 where
  ready block tx locked no_wallet down starting init state_none unset unlocked : DaemonState
  syncing scanning : DaemonState
  other : String → DaemonState

-- the text of a state
abbrev pub tag : DaemonState → String
tag ready = "ready"
tag block = "block"
tag tx = "tx"
tag locked = "locked"
tag no_wallet = "noWallet"
tag down = "down"
tag starting = "starting"
tag init = "init"
tag state_none = "none"
tag unset = ""
tag unlocked = "unlocked"
tag syncing = "syncing"
tag scanning = "scanning"
tag (other s) = s

pub record TransactionItem : Type 0 where
  pub tx_hash : String
  pub amount : ℤ
  pub confirmations : ℕ
  pub block_height : ℕ
  pub timestamp : ℕ
  pub addresses : List String
  pub label : String
  pub fee : ℕ

pub record BalanceResponse : Type 0 where
  pub ready : Bool
  pub confirmed : ℕ
  pub unconfirmed : ℤ
  pub locked : ℕ
  pub total : ℕ

pub record StateEvent : Type 0 where
  pub state : DaemonState
  pub node_running : Bool
  pub error : Option String
  pub port_conflict : Option Bool
  pub another_instance : Option Bool
  pub neutrino_corrupted : Option Bool
  pub block_height : Option ℕ
  pub block_hash : Option String
  pub synced_height : Option ℕ
  pub transaction : Option TransactionItem
  pub mempool_height : Option ℕ
  pub best_header_timestamp : Option ℕ

pub record InfoResponse : Type 0 where
  pub version : String
  pub latest_version : String
  pub synced_to_chain : Bool
  pub block_height : ℕ
  pub mempool_height : ℕ
  pub best_header_timestamp : ℕ
  pub node_pubkey : String
  pub node_alias : String
  pub state : DaemonState
  pub error : Option String
  pub node_running : Bool
  pub another_instance : Option Bool
  pub port_conflict : Option Bool
  pub neutrino_corrupted : Option Bool
  pub node_public : Bool
  pub external_ip : String
  pub rest_cors : String
  pub network : String
  pub node_dir : String
  pub rest_endpoint : String
  pub macaroon_path : String
  pub tls_cert_path : String
  pub peer_address : String
  pub rpc_address : String
  pub macaroon_hex : String
  pub tls_cert_hex : String
