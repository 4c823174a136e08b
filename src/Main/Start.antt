-- ===== src/Main/Start.antt =====
-- Starting a node from the main page: `performStart` and `startNode` of
-- frontend/src/pages/Main/Main.tsx. A handler that awaits a request is one function up to the `await`,
-- and one from each outcome on. What is captured before the `await` is an argument.
use lokinode.Common.{String, false, if◌then◌else◌, none, or_else, str_eq, true}
use lokinode.Fetcher.{Outcome, failure_text, ok, err}
use lokinode.Session.{
  default_rest_cors, default_rest_listen, default_rpc_listen, set_auto_unlock_pending,
  set_user_stopped,
}
use lokinode.Main.Page.{
  MainPage, Settings, Stored, call, get_config, mutate_info, navigate, post_start, post_verify,
  toast_shown,
}

-- `a || b` on texts
abbrev pub or_text : String → String → String
or_text a b = if str_eq a "" then b else a

-- `performStart`, up to the request for the configuration
unfoldable pub perform_start : String → MainPage → MainPage
perform_start dir p = call (get_config dir) (record p {
  session = set_auto_unlock_pending true (set_user_stopped false p.session);
  auto_starting = true;
  event = none;
})

-- its `catch`
unfoldable pub start_failed : String → MainPage → MainPage
start_failed text p =
    call (toast_shown "main.errors.node_error" text)
      (record p { auto_starting = false; session = set_auto_unlock_pending false p.session })

abbrev pub settings_of : String → String → Stored → Settings
settings_of dir alias cfg = record {
  dir = dir;
  alias = or_text cfg.alias alias;
  rest_cors = or_text cfg.rest_cors default_rest_cors;
  rpc_listen = or_text cfg.rpc_listen default_rpc_listen;
  rest_listen = or_text cfg.rest_listen default_rest_listen;
  node_public = or_else cfg.node_public true;
  ip = cfg.node_ip;
}

unfoldable pub config_came : String → String → Outcome Stored → MainPage → MainPage
unfolding start_failed
config_came dir alias (ok cfg) p = call (post_verify (settings_of dir alias cfg)) p
config_came dir alias (err e) p = start_failed (failure_text e) p

unfoldable pub verify_done : Outcome (Unit {0}) → MainPage → MainPage
unfolding start_failed
verify_done (ok _) p = call post_start p
verify_done (err e) p = start_failed (failure_text e) p

unfoldable pub start_done : String → Outcome (Unit {0}) → MainPage → MainPage
unfolding start_failed
start_done alias (ok _) p = call (navigate "/node") (call (mutate_info alias) p)
start_done alias (err e) p = start_failed (failure_text e) p

-- how the three requests of a start end
pub record Answers : Type 0 where
  pub config : Outcome Stored
  pub verify : Outcome (Unit {0})
  pub start : Outcome (Unit {0})

abbrev pub go_on : Outcome (Unit {0}) → MainPage → MainPage → MainPage
go_on (ok _) failed rest = rest
go_on (err e) failed rest = failed

-- the `await`s one after the other: the run in which the page changes in no other way between them, and the
-- timer of 60 seconds does not end the wait
unfoldable pub after_verify : Answers → String → MainPage → MainPage
unfolding verify_done start_done
after_verify a alias p =
    let q = verify_done a.verify p in go_on a.verify q (start_done alias a.start q)

unfoldable pub after_config : Answers → String → String → Outcome Stored → MainPage → MainPage
unfolding config_came after_verify
after_config a dir alias (ok cfg) p =
    after_verify a (or_text cfg.alias alias) (config_came dir alias (ok cfg) p)
after_config a dir alias (err e) p = config_came dir alias (err e) p

unfoldable pub perform_start_with : Answers → String → String → MainPage → MainPage
unfolding perform_start after_config
perform_start_with a dir alias p = after_config a dir alias a.config (perform_start dir p)

-- `startNode`, and the alias that it captures
unfoldable pub start_node : MainPage → MainPage
unfolding perform_start
start_node p = perform_start p.config.node_dir p

abbrev pub start_alias : MainPage → String
start_alias p = or_text p.config.alias_name p.default_alias

-- the power button, which is disabled while a start is under way
unfoldable pub click_power : MainPage → MainPage
unfolding start_node
click_power p = if p.auto_starting then p else start_node p
