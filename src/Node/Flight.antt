-- ===== src/Node/Flight.antt =====
-- The restart requests of the page: how many are in flight, and what waits for their effect.
use lokinode.Node.Handlers.{main_button}
use lokinode.Common.{Bool, ap, arith, false, refl, suc, sym, true, ℕ, ◌+◌, ◌-◌, ◌∙◌, ◌≡◌, ◌≤◌}
use lokinode.Fetcher.{Outcome, ok, err}
use lokinode.Node.Page.{Page}
use lokinode.Node.Commit.{commit}
use lokinode.Node.Steps.{Input, restart_answered, handle, Mounted, main_clicked}
use lokinode.Node.Frames.{restarts, commit-Committed}

abbrev is_answer : Input → Bool
is_answer (restart_answered o) = true
is_answer _ = false

abbrev pub flag : Bool → ℕ
flag true = 1
flag false = 0

-- A page that was mounted with no request in flight, and the number of restarts that it has asked for and
-- that are not answered. An answer comes only to a request.
pub data InFlight : Mounted → ℕ → Type 0 where
  mounted : (m : Mounted) → m.page.restart_in_flight ≡ false → InFlight m 0
  acted :
      (now : ℕ) (m : Mounted) (n : ℕ) (i : Input)
      → InFlight m n
      → is_answer i ≡ false
      → InFlight
          (record m { page = handle now i m.page })
          (n + (restarts (handle now i m.page).out - restarts m.page.out))
  answered :
      (now : ℕ) (m : Mounted) (n : ℕ) (o : Outcome (Unit {0}))
      → InFlight m (suc n)
      → InFlight (record m { page = handle now (restart_answered o) m.page }) n
  shown :
      (now : ℕ) (m : Mounted) (n : ℕ)
      → InFlight m n
      → InFlight (record { rendered = m.page; page = commit now m.rendered m.page }) n

flag-main_button :
    (p : Page)
    → flag p.restart_in_flight + (restarts (main_button p).out - restarts p.out)
      ≡ flag (main_button p).restart_in_flight
unfolding main_button restarts
flag-main_button p = ground arith

acted_flag :
    (now : ℕ) (i : Input) (p : Page)
    → is_answer i ≡ false
    → flag p.restart_in_flight + (restarts (handle now i p).out - restarts p.out)
      ≡ flag (handle now i p).restart_in_flight
unfolding handle restarts
acted_flag now main_clicked p h = flag-main_button p
acted_flag now i p h = ground arith

answered_flag :
    (now : ℕ) (o : Outcome (Unit {0})) (p : Page)
    → (handle now (restart_answered o) p).restart_in_flight ≡ false
unfolding handle
answered_flag now (ok _) p = refl
answered_flag now (err e) p = refl

InFlight-flag : {m : Mounted} {n : ℕ} → InFlight m n → n ≡ flag m.page.restart_in_flight
InFlight-flag (mounted m h) = rw h refl
InFlight-flag (acted now m n i r h) = omega (arith, InFlight-flag r, acted_flag now i m.page h)
InFlight-flag (answered now m n o r) =
    rw (answered_flag now o m.page) (ground (arith, InFlight-flag r))
InFlight-flag (shown now m n r) =
    InFlight-flag r ∙ ap flag (sym (commit-Committed now m.rendered m.page).same_in_flight)

-- However often and however fast the user clicks, at most one restart request is in flight.
pub at_most_one_restart : (m : Mounted) (n : ℕ) → InFlight m n → n ≤ 1
at_most_one_restart m n r = ground (arith, InFlight-flag r)
