-- ===== src/Main/Effects.antt =====
-- The effects of the main page. An effect reads the render `r` that it belongs to and writes to the
-- page `p`. After a render an effect runs if a value of its dependencies is not that of the render
-- before, and the clean-ups of the old effects run first.
use lokinode.Common.{
  Bool, Option, String, false, if◌then◌else◌, none, not, some, str_eq, true, ℕ, ◌&&◌, ◌+◌, ◌||◌,
}
use lokinode.Daemon.{InfoResponse, StateEvent, tag}
use lokinode.Session.{end_transition}
use lokinode.Node.Commit.{differs}
use lokinode.Node.Derived.{is_down_state}
use lokinode.Main.Page.{MainPage, call, fetch_last, get_default_dir, navigate, toast_shown}
use lokinode.Main.Nodes.{fetch_recent, look_into}

abbrev pub is_stopping : MainPage → Bool
is_stopping p = p.transition.is_active && p.session.user_stopped

abbrev pub reports_down : Option StateEvent → Bool
reports_down none = false
reports_down (some e) = is_down_state e.state

-- `sseEvent?.state`, as a text, with one of its own for no event
abbrev pub event_tag : Option StateEvent → Option String
event_tag none = none
event_tag (some e) = some (tag e.state)

abbrev pub tag_differs : Option String → Option String → Bool
tag_differs none none = false
tag_differs (some a) (some b) = not (str_eq a b)
tag_differs _ _ = true

-- `info?.nodeRunning`, as a condition
abbrev pub info_running : Option InfoResponse → Bool
info_running none = false
info_running (some i) = i.node_running

unfoldable pub dismiss_overlay : MainPage → MainPage → MainPage
dismiss_overlay r p =
    if is_stopping r && reports_down r.event
    then record p { safety_timer = none; transition = end_transition }
    else p

unfoldable pub set_safety : ℕ → MainPage → MainPage → MainPage
set_safety now r p = if is_stopping r then record p { safety_timer = some (now + 10000) } else p

unfoldable pub check_node_dir : MainPage → MainPage → MainPage
unfolding look_into
check_node_dir r p =
    if str_eq r.config.node_dir "" then call get_default_dir p else look_into r.config.node_dir p

unfoldable pub leave_when_running : MainPage → MainPage → MainPage
leave_when_running r p = if info_running r.info then call (navigate "/node") p else p

unfoldable pub watch_start : ℕ → MainPage → MainPage → MainPage
watch_start now r p =
    if r.auto_starting
    then record p { auto_start_timer = some (now + 60000) }
    else record p { auto_start_timer = none }

-- ── The timers
unfoldable pub safety_fires : MainPage → MainPage
safety_fires p = record p { safety_timer = none; transition = end_transition }

unfoldable pub auto_start_fires : MainPage → MainPage
auto_start_fires p =
    call (toast_shown "main.errors.start_failed" "node.errors.start_timeout")
      (record p { auto_starting = false; auto_start_timer = none })

-- the listener of the Escape key
unfoldable pub handle_esc : MainPage → MainPage
handle_esc p = record p { show_recent = false; is_editing_alias = false }

-- ── The commit of a render
abbrev pub stopping_changed : MainPage → MainPage → Bool
stopping_changed a r =
    differs a.transition.is_active r.transition.is_active
    || differs a.session.user_stopped r.session.user_stopped

abbrev pub event_changed : MainPage → MainPage → Bool
event_changed a r = tag_differs (event_tag a.event) (event_tag r.event)

abbrev pub dir_changed : MainPage → MainPage → Bool
dir_changed a r = not (str_eq a.config.node_dir r.config.node_dir)

unfoldable pub run_if : Bool → (MainPage → MainPage) → MainPage → MainPage
run_if b f p = if b then f p else p

unfoldable pub clean_up : MainPage → MainPage → MainPage → MainPage
clean_up a r p = record p {
  safety_timer = if stopping_changed a r && is_stopping a then none else p.safety_timer;
  auto_start_timer =
      if differs a.auto_starting r.auto_starting && a.auto_starting
      then none
      else p.auto_start_timer;
}

-- the effects after the render `r`, whose forerunner was the render `a`, in the order of the source
unfoldable pub commit : ℕ → MainPage → MainPage → MainPage
unfolding clean_up run_if dismiss_overlay set_safety check_node_dir leave_when_running watch_start
commit now a r =
    let p₁ = clean_up a r r in
    let p₂ = run_if (stopping_changed a r || event_changed a r) (dismiss_overlay r) p₁ in
    let p₃ = run_if (stopping_changed a r) (set_safety now r) p₂ in
    let p₄ = run_if (dir_changed a r) (check_node_dir r) p₃ in
    let p₅ =
      run_if (differs (info_running a.info) (info_running r.info)) (leave_when_running r) p₄ in
    run_if (differs a.auto_starting r.auto_starting) (watch_start now r) p₅

-- the effects of the first render: all of them
unfoldable pub mount : ℕ → MainPage → MainPage
unfolding dismiss_overlay set_safety check_node_dir leave_when_running watch_start fetch_recent
mount now r =
    let p = set_safety now r (dismiss_overlay r r) in
    let q = check_node_dir r (call fetch_last p) in
    fetch_recent (watch_start now r (leave_when_running r q))
