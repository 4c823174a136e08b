-- ===== src/Onboard/Launch.antt =====
-- `handleLaunch` of frontend/src/pages/Onboard/Onboard.tsx: the requests of a launch in their order,
-- and how it ends. The optimistic value that the launch writes to the cache of /api/info is left out.
use lokinode.Common.{
  Bool, List, Option, Text, [], codes, false, if◌then◌else◌, join, none, some, trim, true, ℕ, ◌++◌,
  ◌∷◌,
}
use lokinode.Daemon.{DaemonState, no_wallet, locked, unset}
use lokinode.Fetcher.{Failure, failure_message}
use lokinode.Session.{NodeSession, set_user_stopped, set_auto_unlock_pending}
use lokinode.Onboard.Poll.{Poll, Rounds, found, cancelled, timed_out, unfinished, poll_until}
use lokinode.Onboard.Wizard.{
  no_error, said, LaunchPhase, LaunchError, Wizard, WalletMode, thrown, create_wallet,
  restore_wallet, mnemonic, hex, error, verifying, starting, waiting_nowallet, initializing_wallet,
  done, idle, wallet_exists,
}

-- what is posted to /api/wallet/init
pub record InitBody : Type 0 where
  pub password : Text
  pub mnemonic : Text
  pub aezeed_pass : Text
  pub hex : Text

pub data Post : Type 0 where
  verify_config : (dir alias rest_cors rpc_listen rest_listen : Text) → Post
  start_node : Post
  init_wallet : InitBody → Post
  save_config : (dir alias rest_cors rpc_listen rest_listen : Text) → Post

-- how the awaited calls end: `none` for a request that succeeds; whether the launch is cancelled by
-- then; and the rounds of the two polls with the time at which they start
pub record World : Type 0 where
  pub verify : Option Failure
  pub cancelled_verify : Bool
  pub start : Option Failure
  pub cancelled_start : Bool
  pub wait_start : ℕ
  pub wait : Rounds DaemonState
  pub cancelled_wait : Bool
  pub init : Option Failure
  pub leave_start : ℕ
  pub leave : Rounds DaemonState
  pub fuel : ℕ

-- the page, the session, the name in the shared configuration and the requests so far
pub record Launch : Type 0 where
  pub wizard : Wizard
  pub session : NodeSession
  pub alias_name : Text
  pub posts : List Post

abbrev pub set_phase : LaunchPhase → Launch → Launch
set_phase p l = record l { wizard = record l.wizard { phase = p } }

abbrev pub send : Post → Launch → Launch
send p l = record l { posts = l.posts ++ p ∷ [] }

-- the `catch` of the launch
abbrev pub fail_with : LaunchError → Launch → Launch
fail_with e l = record l { wizard = record l.wizard { phase = error; launch_error = e } }

-- an awaited request: its failure, or what follows
abbrev pub or_fail : Option Failure → Launch → Launch → Launch
or_fail (some e) sent rest = fail_with (thrown (failure_message e)) sent
or_fail none sent rest = rest

-- `if (cancelLaunchRef.current) return;`
abbrev pub unless_cancelled : Bool → Launch → Launch → Launch
unless_cancelled true l rest = l
unless_cancelled false l rest = rest

abbrev pub is_restore_hex : Wizard → Bool
is_restore_hex w = elim w.mode [
  | none ↦ false
  | some m ↦ elim m [
    | create_wallet ↦ false
    | restore_wallet ↦ elim w.restore_kind [ mnemonic ↦ false | hex ↦ true ]
  ]
]

abbrev pub is_create : Option WalletMode → Bool
is_create (some create_wallet) = true
is_create _ = false

unfoldable pub init_body : Wizard → InitBody
unfolding join trim
init_body w = record {
  password = w.pwd;
  mnemonic =
      if is_create w.mode
      then join (codes " ") w.generated_words
      else elim w.restore_kind [ mnemonic ↦ trim w.restore_mnemonic | hex ↦ [] ];
  aezeed_pass =
      if is_create w.mode
      then []
      else elim w.restore_kind [ mnemonic ↦ w.restore_seed_passphrase | hex ↦ [] ];
  hex = if is_restore_hex w then trim w.restore_hex else [];
}

abbrev pub waits_for_wallet : DaemonState → Bool
waits_for_wallet no_wallet = true
waits_for_wallet locked = true
waits_for_wallet _ = false

abbrev pub has_left : DaemonState → Bool
has_left no_wallet = false
has_left unset = false
has_left _ = true

-- after the second poll, whose end decides nothing; neither does that of the last request
unfoldable pub finish : Poll DaemonState → Launch → Launch
unfolding trim
finish unfinished l = l
finish _ l =
    let w = l.wizard in
    let ended : Launch = record l {
      wizard = record w { phase = done; generated_words = []; location = "/node" };
    } in
    send (save_config w.node_dir (trim w.alias) w.rest_cors w.rpc_listen w.rest_listen) ended

unfoldable pub initialize : World → Launch → Launch
unfolding init_body finish poll_until
initialize world l =
    let sent = send (init_wallet (init_body l.wizard)) (set_phase initializing_wallet l) in
    or_fail world.init sent
      (finish (poll_until has_left 15000 world.leave_start world.leave world.fuel) sent)

-- the end of the first poll
unfoldable pub waited : World → Poll DaemonState → Launch → Launch
unfolding initialize
waited world cancelled l = fail_with (thrown "cancelled") l
waited world timed_out l = fail_with (thrown "Timed out waiting for daemon") l
waited world unfinished l = l
waited world (found s) l =
    unless_cancelled world.cancelled_wait l
      (elim s [ locked ↦ fail_with (said wallet_exists) l | _ ↦ initialize world l ])

unfoldable pub wait_for_wallet : World → Launch → Launch
unfolding waited poll_until
wait_for_wallet world l =
    waited world (poll_until waits_for_wallet 60000 world.wait_start world.wait world.fuel)
      (set_phase waiting_nowallet l)

unfoldable pub start_daemon : World → Launch → Launch
unfolding wait_for_wallet
start_daemon world l =
    let sent = send start_node (set_phase starting l) in
    or_fail world.start sent
      (unless_cancelled world.cancelled_start sent (wait_for_wallet world sent))

unfoldable pub verify : World → Launch → Launch
unfolding start_daemon trim
verify world l =
    let w = l.wizard in
    let sent =
      send (verify_config w.node_dir (trim w.alias) w.rest_cors w.rpc_listen w.rest_listen)
        (set_phase verifying l) in
    or_fail world.verify sent
      (unless_cancelled world.cancelled_verify sent (start_daemon world sent))

unfoldable pub begin : NodeSession → Wizard → Launch
unfolding trim
begin session w = record {
  wizard = record w { cancel_launch = false; launch_error = no_error };
  session = set_auto_unlock_pending false (set_user_stopped false session);
  alias_name = trim w.alias;
  posts = [];
}

-- `if (phase !== 'idle') return;`
abbrev pub if_idle : LaunchPhase → Launch → Launch → Launch
if_idle idle l rest = rest
if_idle _ l rest = l

unfoldable pub handle_launch : World → NodeSession → Text → Wizard → Launch
unfolding verify begin
handle_launch world session name w =
    if_idle w.phase (record { wizard = w; session = session; alias_name = name; posts = [] })
      (verify world (begin session w))
