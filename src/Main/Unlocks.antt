-- ===== src/Main/Unlocks.antt =====
-- A start from the main page, frontend/src/pages/Main/Main.tsx, up to the unlock sheet of the page of the
-- node, frontend/src/pages/Node/Node.tsx: the two share the session.
use lokinode.Common.{String, ap, arith, false, refl, true, ℕ, ◌∙◌, ◌≡◌}
use lokinode.Fetcher.{ok}
use lokinode.Session.{set_auto_unlock_pending, set_user_stopped}
use lokinode.Node.Page.{Page}
use lokinode.Node.Derived.{is_locked, node_running}
use lokinode.Node.Commit.{commit}
use lokinode.Node.Sheet.{Awaited, Open, commit-Open}
use lokinode.Main.Page.{MainPage, Stored}
use lokinode.Main.Start.{Answers, after_config, after_verify, perform_start, perform_start_with}

started_session :
    (a : Answers) (dir alias : String) (p : MainPage) (cfg : Stored)
    → a.config ≡ ok cfg
    → a.verify ≡ ok tt
    → a.start ≡ ok tt
    → (perform_start_with a dir alias p).session
      ≡ set_auto_unlock_pending true (set_user_stopped false p.session)
unfolding perform_start_with after_config after_verify perform_start
started_session a dir alias p cfg c v s = rw (c, after_config, after_verify, v, s) refl

-- A start from the main page whose requests succeed, in a session that is neither restarting nor has its
-- wallet unlocked, lets the page of the node ask for the password by itself: with that session, the commit
-- that first shows the running node with its wallet locked opens the unlock sheet, and takes the wish
-- back, so that the sheet does not open again.
pub started_node_asks_for_password :
    (answers : Answers) (dir alias : String) (p : MainPage) (cfg : Stored)
    → answers.config ≡ ok cfg
    → answers.verify ≡ ok tt
    → answers.start ≡ ok tt
    → p.session.is_restarting ≡ false
    → p.session.wallet_unlocked ≡ false
    → (now : ℕ) (a r : Page) → r.session ≡ (perform_start_with answers dir alias p).session
    → is_locked a ≡ false
    → is_locked r ≡ true
    → node_running r ≡ true
    → ((commit now a r).show_unlock ≡ true) × ((commit now a r).session.auto_unlock_pending ≡ false)
unfolding Open
started_node_asks_for_password answers dir alias p cfg c v s m n now a r e b l k =
    let session = e ∙ started_session answers dir alias p cfg c v s in
    let awaited : Awaited r = record {
      pending = ap (λ t. t.auto_unlock_pending) session;
      not_restarting = ap (λ t. t.is_restarting) session ∙ m;
      still_locked = ap (λ t. t.wallet_unlocked) session ∙ n;
      is_wallet_locked = l;
      is_node_running = k;
    } in
    commit-Open now r awaited a (ground (arith, b, l))
