-- ===== src/Onboard/Wizard.antt =====
-- The state of the wizard of frontend/src/pages/Onboard/Onboard.tsx, its order of steps and its
-- validation. A message is kept by its key: the texts of these keys differ in every language.
use lokinode.Common.{
  Bool, List, Option, String, Text, [], codes, false, if◌then◌else◌, is_blank, is_empty, length,
  ltb, none, not, some, starts_with, text_eq, trim, true, words, ◌&&◌, ◌==◌, ◌||◌, ◌∷◌,
}
use lokinode.Regex.Expr.{
  is_digit, is_letter, digit, up_to, times, is_hex, one_of, plus, char, optional, seq, Regex,
  matches, either,
}

pub data Stage : Type 0 where
  node wallet_mode password seed_reveal restore review : Stage

pub data WalletMode : Type 0 where
  create_wallet restore_wallet : WalletMode

pub data RestoreKind : Type 0 where
  mnemonic hex : RestoreKind

pub data LaunchPhase : Type 0 where
  idle verifying starting waiting_nowallet initializing_wallet done error : LaunchPhase

pub data Message : Type 0 where
  no_message dir_required dir_not_empty wallet_exists invalid_cors invalid_listen : Message
  pwd_min pwd_match mnemonic_len hex_required : Message

-- `if (msg)`, as a condition
abbrev pub is_message : Message → Bool
is_message no_message = false
is_message dir_required = true
is_message _ = true

-- the message of a failed launch
pub data LaunchError : Type 0 where
  no_error : LaunchError
  said : Message → LaunchError
  thrown : String → LaunchError

-- the page, with `nodeDir` of the shared configuration and the place that the page navigated to
pub record Wizard : Type 0 where
  pub stage : Stage
  pub alias : Text
  pub alias_error : Bool
  pub show_advanced : Bool
  pub rest_cors : Text
  pub rpc_listen : Text
  pub rest_listen : Text
  pub mode : Option WalletMode
  pub pwd : Text
  pub confirm_pwd : Text
  pub pwd_error : Message
  pub dir_error : Message
  pub rest_cors_error : Message
  pub rpc_listen_error : Message
  pub rest_listen_error : Message
  pub restore_kind : RestoreKind
  pub restore_mnemonic : Text
  pub restore_hex : Text
  pub restore_seed_passphrase : Text
  pub restore_error : Message
  pub phase : LaunchPhase
  pub launch_error : LaunchError
  pub generated_words : List Text
  pub seed_ack : Bool
  pub cancel_launch : Bool
  pub node_dir : Text
  pub location : String

abbrev pub initial_wizard : Wizard
initial_wizard = record {
  stage = node;
  alias = [];
  alias_error = false;
  show_advanced = false;
  rest_cors = codes "http://localhost:3000";
  rpc_listen = codes "127.0.0.1:10005";
  rest_listen = codes "127.0.0.1:5050";
  mode = none;
  pwd = [];
  confirm_pwd = [];
  pwd_error = no_message;
  dir_error = no_message;
  rest_cors_error = no_message;
  rpc_listen_error = no_message;
  rest_listen_error = no_message;
  restore_kind = mnemonic;
  restore_mnemonic = [];
  restore_hex = [];
  restore_seed_passphrase = [];
  restore_error = no_message;
  phase = idle;
  launch_error = no_error;
  generated_words = [];
  seed_ack = false;
  cancel_launch = false;
  node_dir = [];
  location = "/onboard";
}

abbrev pub order : Option WalletMode → List Stage
order (some restore_wallet) = node ∷ wallet_mode ∷ password ∷ restore ∷ review ∷ []
order (some create_wallet) = node ∷ wallet_mode ∷ password ∷ seed_reveal ∷ review ∷ []
order none = node ∷ wallet_mode ∷ password ∷ review ∷ []

abbrev pub same_stage : Stage → Stage → Bool
same_stage node node = true
same_stage wallet_mode wallet_mode = true
same_stage password password = true
same_stage seed_reveal seed_reveal = true
same_stage restore restore = true
same_stage review review = true
same_stage _ _ = false

-- `order[order.indexOf(s) + 1]` where `s` is in the order
unfoldable pub following : Stage → List Stage → Option Stage
following s [] = none
following s (p ∷ []) = none
following s (p ∷ q ∷ ps) = if same_stage s p then some q else following s (q ∷ ps)

-- `order[order.indexOf(s) - 1]` where that is there
unfoldable pub preceding : Stage → List Stage → Option Stage
preceding s [] = none
preceding s (p ∷ []) = none
preceding s (p ∷ q ∷ ps) = if same_stage s q then some p else preceding s (q ∷ ps)

abbrev pub move_on : Option Stage → Wizard → Wizard
move_on none w = w
move_on (some s) w = record w { stage = s }

abbrev pub move_back : Option Stage → Wizard → Wizard
move_back none w = record w { location = "/" }
move_back (some s) w = record w { stage = s }

-- `goNext` and `goBack`. `order` and `step` are those of the render that the handler was made in.
unfoldable pub go_next : Option WalletMode → Stage → Wizard → Wizard
unfolding following
go_next m s w = move_on (following s (order m)) w

unfoldable pub go_back : Wizard → Wizard
unfolding preceding
go_back w = move_back (preceding w.stage (order w.mode)) w

abbrev pub listen_regex : Regex
listen_regex =
    seq
      (either
        (seq (optional (char b'['))
          (seq (plus (one_of (λ c. is_hex c || c == b':'))) (optional (char b']'))))
        (either (seq (times 3 (seq (up_to 2 digit) (char b'.'))) (up_to 2 digit))
          (plus (one_of (λ c. is_letter c || is_digit c || c == b'.' || c == b'-')))))
      (optional (seq (char b':') (up_to 4 digit)))

-- the test of each field: what the message of the field becomes
unfoldable pub cors_error : Text → Message
unfolding starts_with text_eq
cors_error cors =
    if not (is_empty cors)
      && not (starts_with cors (codes "http://") || starts_with cors (codes "https://"))
      && not (text_eq cors (codes "*"))
    then invalid_cors
    else no_message

unfoldable pub listen_error : Text → Message
unfolding matches
listen_error listen =
    if not (is_empty listen) && not (matches listen_regex listen)
    then invalid_listen
    else no_message

-- an error of the directory that was there stays, but for that of a missing one
abbrev pub keeps_dir_error : Message → Bool
keeps_dir_error no_message = false
keeps_dir_error dir_required = false
keeps_dir_error _ = true

unfoldable pub node_is_valid : Wizard → Bool
unfolding trim cors_error listen_error
node_is_valid w =
    not (is_blank w.alias)
    && not (is_blank w.node_dir)
    && not (keeps_dir_error w.dir_error)
    && not (is_message (cors_error w.rest_cors))
    && not (is_message (listen_error w.rpc_listen))
    && not (is_message (listen_error w.rest_listen))

-- `validateNode`: the messages that decide on `showAdvanced` are those of the last render
unfoldable pub validate_node : Wizard → Wizard × Bool
unfolding node_is_valid trim cors_error listen_error
validate_node w =
    let valid = node_is_valid w in
    (
      record w {
        alias_error = is_blank w.alias;
        dir_error = if is_blank w.node_dir then dir_required else w.dir_error;
        rest_cors_error = cors_error w.rest_cors;
        rpc_listen_error = listen_error w.rpc_listen;
        rest_listen_error = listen_error w.rest_listen;
        show_advanced =
            if not valid
              && (is_message w.rest_cors_error
                  || is_message w.rpc_listen_error
                  || is_message w.rest_listen_error)
            then true
            else w.show_advanced;
      },
      valid,
    )

unfoldable pub validate_password : Wizard → Wizard × Bool
unfolding text_eq
validate_password w =
    if ltb (length w.pwd) 8
    then (record w { pwd_error = pwd_min }, false)
    else if not (text_eq w.pwd w.confirm_pwd)
    then (record w { pwd_error = pwd_match }, false)
    else (record w { pwd_error = no_message }, true)

unfoldable pub validate_restore : Wizard → Wizard × Bool
unfolding words trim
validate_restore w = elim w.restore_kind [
  | mnemonic ↦
      if not (length (words w.restore_mnemonic) == 24)
      then (record w { restore_error = mnemonic_len }, false)
      else (record w { restore_error = no_message }, true)
  | hex ↦ elim w.mode [
    | none ↦ (record w { restore_error = no_message }, true)
    | some m ↦ elim m [
      | create_wallet ↦ (record w { restore_error = no_message }, true)
      | restore_wallet ↦
          if is_blank w.restore_hex
          then (record w { restore_error = hex_required }, false)
          else (record w { restore_error = no_message }, true)
    ]
  ]
]
