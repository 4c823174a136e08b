-- ===== src/Clipboard/Credentials.antt =====
-- CredentialRow of frontend/src/views/settings/Network.tsx, for the macaroon and the certificate: what it
-- shows of each answer of /api/info, and what its button copies.
use lokinode.Common.{
  Bool, Option, String, false, if◌then◌else◌, none, not, some, str_eq, true, ℕ, ◌&&◌, ◌||◌,
}
use lokinode.Daemon.{InfoResponse, DaemonState, ready, syncing, scanning, block, tx}
use lokinode.Clipboard.{Copier, copy_value, mark, timer_fires}

pub data Mode : Type 0 where
  hex path : Mode

pub data Credential : Type 0 where
  macaroon tls_cert : Credential

pub record Row : Type 0 where
  pub mode : Mode
  pub copier : Copier

abbrev pub is_ready_state : DaemonState → Bool
is_ready_state ready = true
is_ready_state syncing = true
is_ready_state scanning = true
is_ready_state block = true
is_ready_state tx = true
is_ready_state _ = false

-- `credsHexReady`
abbrev pub creds_hex_ready : Option InfoResponse → Bool
creds_hex_ready none = false
creds_hex_ready (some i) = i.node_running && is_ready_state i.state

-- `credsLoading`
abbrev pub creds_loading : Option InfoResponse → Bool
creds_loading none = true
creds_loading (some i) = false

abbrev pub field : Credential → Mode → InfoResponse → String
field macaroon hex i = i.macaroon_hex
field macaroon path i = i.macaroon_path
field tls_cert hex i = i.tls_cert_hex
field tls_cert path i = i.tls_cert_path

unfoldable pub display : Credential → Mode → Option InfoResponse → String
display k m none = ""
display k m (some i) = field k m i

abbrev pub is_hex : Mode → Bool
is_hex hex = true
is_hex path = false

abbrev pub hex_unavailable : Mode → Option InfoResponse → Bool
hex_unavailable m info = is_hex m && not (creds_hex_ready info)

pub data Shown : Type 0 where
  skeleton hex_locked dash : Shown
  shown_text : String → Shown

unfoldable pub shown : Credential → Mode → Option InfoResponse → Shown
unfolding display
shown k m info =
    if creds_loading info
    then skeleton
    else if hex_unavailable m info
    then hex_locked
    else if str_eq (display k m info) ""
    then dash
    else shown_text (display k m info)

-- a click on the button, which is disabled where there is nothing to copy
unfoldable pub click_copy : Credential → Option InfoResponse → Row → Row
unfolding display copy_value
click_copy k info r =
    if str_eq (display k r.mode info) "" || hex_unavailable r.mode info
    then r
    else record r { copier = copy_value (display k r.mode info) r.copier }

pub data Act : Type 0 where
  pick : Mode → Act
  click text_written timer_due : Act

unfoldable pub step : Credential → ℕ → Option InfoResponse → Act → Row → Row
unfolding click_copy mark timer_fires
step k now info (pick m) r = record r { mode = m }
step k now info click r = click_copy k info r
step k now info text_written r = record r { copier = mark 1500 now r.copier }
step k now info timer_due r = record r { copier = timer_fires now r.copier }
