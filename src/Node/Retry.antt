-- ===== src/Node/Retry.antt =====
-- A restart that is asked for and brings no event.
use lokinode.Node.Handlers.{main_button}
use lokinode.Common.{Bool, arith, false, sym, true, ℕ, ◌∙◌, ◌≡◌}
use lokinode.Fetcher.{ok, err}
use lokinode.Node.Page.{Page}
use lokinode.Node.Derived.{is_down}
use lokinode.Node.Commit.{commit}
use lokinode.Node.Steps.{main_clicked, Input, event_came, restart_answered, handle, Mounted}
use lokinode.Node.Frames.{commit-Committed}

-- all that may happen but a new event and the failure of a restart
abbrev pub is_quiet : Input → Bool
is_quiet (event_came e) = false
is_quiet (restart_answered (err e)) = false
is_quiet _ = true

pub data Quietly (m : Mounted) : Mounted → Type 0 where
  start : Quietly m m
  quiet_input :
      (now : ℕ) (i : Input) {n : Mounted}
      → Quietly m n
      → is_quiet i ≡ true
      → Quietly m (record n { page = handle now i n.page })
  quiet_render :
      (now : ℕ) {n : Mounted}
      → Quietly m n
      → Quietly m (record { rendered = n.page; page = commit now n.rendered n.page })

record IsWaiting (m : Mounted) : Type 0 where
  retrying : m.page.is_retrying ≡ true
  same_event : m.rendered.event_no ≡ m.page.event_no

main_button-retrying :
    (p : Page)
    → p.is_retrying ≡ true
    → ((main_button p).is_retrying ≡ true) × ((main_button p).event_no ≡ p.event_no)
unfolding main_button
main_button-retrying p h = ground arith

handle-IsWaiting :
    (now : ℕ) (i : Input) (p : Page)
    → is_quiet i ≡ true
    → p.is_retrying ≡ true
    → ((handle now i p).is_retrying ≡ true) × ((handle now i p).event_no ≡ p.event_no)
unfolding handle
handle-IsWaiting now (restart_answered (ok o)) p q h = ground arith
handle-IsWaiting now main_clicked p q h = main_button-retrying p h
handle-IsWaiting now i p q h = ground arith

Quietly-IsWaiting : {m n : Mounted} → IsWaiting m → Quietly m n → IsWaiting n
Quietly-IsWaiting w start = w
Quietly-IsWaiting w (quiet_input now i {n} s q) =
    let v = Quietly-IsWaiting w s in
    let (r, e) = handle-IsWaiting now i n.page q v.retrying in
    record { retrying = r; same_event = v.same_event ∙ sym e }
Quietly-IsWaiting w (quiet_render now {n} s) =
    let v = Quietly-IsWaiting w s in
    let k = commit-Committed now n.rendered n.page in
    record {
      retrying = ground (arith, k.retrying, v.retrying, v.same_event);
      same_event = sym k.same_event_no;
    }

-- While a restart that the user asked for brings neither an event nor an error, the error screen with its
-- button does not come back, however long that lasts and whatever timers fire.
pub retry_without_event_hides_error :
    (m n : Mounted)
    → m.page.is_retrying ≡ true
    → m.rendered.event_no ≡ m.page.event_no
    → Quietly m n
    → is_down n.page ≡ false
unfolding is_down
retry_without_event_hides_error m n r e s =
    rw (Quietly-IsWaiting (record { retrying = r; same_event = e }) s).retrying (ground arith)
