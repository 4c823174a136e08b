-- ===== src/Network.antt =====
-- The form of frontend/src/views/settings/Network.tsx: its validation, its automatic save and the restart
-- that applies it. `new URL` is the parameter `parse_url`. Texts that the form takes apart are lists of
-- code units. `posts` lists the requests, last first; the notices that a click shows are left out.
pub mod Apply
pub mod Addresses
pub mod Dirty
pub mod Autosave
pub mod Saves
mod Tests
use lokinode.Common.{
  Bool, List, Option, Text, [], codes, false, if◌then◌else◌, includes, is_blank, is_empty, none,
  not, some, split, text_eq, trim, true, ℕ, ◌&&◌, ◌++◌, ◌+◌, ◌==◌, ◌||◌, ◌∷◌,
}
use lokinode.Regex.Expr.{
  digit, up_to, is_hex, plus, char, one_of, times, optional, Regex, matches, seq,
}
use lokinode.Session.{set_auto_unlock_pending, set_is_restarting, NodeSession}

abbrev pub octets : Regex
octets = seq (times 3 (seq (up_to 2 digit) (char b'.'))) (up_to 2 digit)

abbrev pub port : Regex
port = optional (seq (char b':') (up_to 4 digit))

abbrev pub colon_hex : Regex
colon_hex = one_of (λ c. is_hex c || c == b':')

abbrev pub ipv4_re : Regex
ipv4_re = seq octets port

abbrev pub ipv6_re : Regex
ipv6_re = seq (seq (optional (char b'[')) (seq (plus colon_hex) (optional (char b']')))) port

unfoldable pub is_valid_ip : Text → Bool
is_valid_ip ip = matches ipv4_re ip || matches ipv6_re ip

-- what the form reads of a URL
pub record Url : Type 0 where
  pub protocol : Text
  pub pathname : Text
  pub search : Text
  pub hash : Text

unfoldable pub is_origin : Option Url → Bool
unfolding text_eq
is_origin none = false
is_origin (some url) =
    (text_eq url.protocol (codes "http:") || text_eq url.protocol (codes "https:"))
    && text_eq url.pathname (codes "/")
    && is_empty url.search
    && is_empty url.hash

-- `cors.split(',').map(p => p.trim()).filter(Boolean)`
unfoldable pub trimmed : List Text → List Text
unfolding trim
trimmed [] = []
trimmed (p ∷ ps) = let rest = trimmed ps in if is_blank p then rest else trim p ∷ rest

unfoldable pub parts_of : Text → List Text
unfolding trimmed split
parts_of cors = trimmed ((split b',' cors).0 ∷ (split b',' cors).1)

pub record NetworkForm : Type 0 where
  pub alias : Text
  pub node_public : Bool
  pub node_ip : Text
  pub rest_cors : Text
  pub rpc_listen : Text
  pub rest_listen : Text

pub data Post : Type 0 where
  save_config : Text → Text → NetworkForm → Post
  restart_node : Post

pub record Page : Type 0 where
  pub session : NodeSession
  pub node_dir : Text
  pub pub_key : Text
  pub alias_name : Text
  pub form : Option NetworkForm
  pub saved_form : Option NetworkForm
  pub restart_armed : Bool
  pub restarting : Bool
  pub restart_timer : Option ℕ
  pub at_node : Bool
  pub posts : List Post

module _ (parse_url : Text → Option Url) where
  unfoldable pub all_origins : List Text → Bool
  unfolding is_origin text_eq
  all_origins [] = true
  all_origins (p ∷ ps) =
      let rest = all_origins ps in
      if text_eq p (codes "*") then rest else is_origin (parse_url p) && rest

  unfoldable pub is_valid_cors : Text → Bool
  unfolding text_eq trim parts_of all_origins
  is_valid_cors cors = text_eq cors (codes "*") || is_blank cors || all_origins (parts_of cors)

  unfoldable pub ip_error : NetworkForm → Bool
  unfolding is_valid_ip
  ip_error f = f.node_public && not (is_empty f.node_ip) && not (is_valid_ip f.node_ip)

  unfoldable pub ip_missing : NetworkForm → Bool
  ip_missing f = f.node_public && is_empty f.node_ip

  unfoldable pub cors_error : NetworkForm → Bool
  unfolding is_valid_cors
  cors_error f = not (is_valid_cors f.rest_cors)

  unfoldable pub has_issues : NetworkForm → Bool
  unfolding ip_error ip_missing cors_error
  has_issues f = ip_error f || ip_missing f || cors_error f

  -- `handleApplyAndRestart` at the time `now`, to its first await
  unfoldable pub apply_form : ℕ → NetworkForm → Page → Page
  unfolding has_issues
  apply_form now f p =
      if has_issues f
      then p
      else if not p.restart_armed
      then record p { restart_armed = true; restart_timer = some (now + 3000) }
      else record p { restarting = true; posts = save_config p.node_dir p.pub_key f ∷ p.posts }

  unfoldable pub handle_apply_and_restart : ℕ → Page → Page
  unfolding apply_form
  handle_apply_and_restart now p = elim p.form [
    | none ↦ p
    | some f ↦ if p.restarting then p else apply_form now f p
  ]

-- the timer that takes the confirmation back
unfoldable pub disarm : Page → Page
disarm p = record p { restart_armed = false; restart_timer = none }

-- the answer to the saved configuration of `f`: whether it succeeded
unfoldable pub config_saved : NetworkForm → Bool → Page → Page
config_saved f true p = record p {
  saved_form = some f;
  alias_name = f.alias;
  session = set_is_restarting true (set_auto_unlock_pending true p.session);
  at_node = true;
  posts = restart_node ∷ p.posts;
}
config_saved f false p = record p { restarting = false; restart_armed = false }

-- the restart that was sent fails
unfoldable pub restart_failed : Page → Page
restart_failed p = record p { session = set_is_restarting false p.session; restarting = false }

-- the form's fields
unfoldable pub update : (NetworkForm → NetworkForm) → Page → Page
update g p = elim p.form [ none ↦ p | some f ↦ record p { form = some (g f) } ]

-- what `onBlur` of the address makes of its text
unfoldable pub with_port : Text → Text
unfolding trim includes matches
with_port ip =
    let t = trim ip in
    if is_empty t || includes t (codes ":")
    then ip
    else if matches octets t || matches (seq (char b'[') (seq (plus colon_hex) (char b']'))) t
    then t ++ codes ":5521"
    else ip
