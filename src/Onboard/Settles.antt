-- ===== src/Onboard/Settles.antt =====
-- How the launch of frontend/src/pages/Onboard/Onboard.tsx ends.
use lokinode.Fetcher.{failure_message, Failure}
use lokinode.Daemon.{DaemonState}
use lokinode.Common.{
  Bool, List, Option, String, Text, [], arith, false, inl, inr, none, refl, some, suc, take, trim,
  true, ℕ, ◌<◌, ◌∷◌, ◌≡◌, ◌≢◌, ◌≤◌, ◌⊎◌,
}
use lokinode.Daemon.{locked}
use lokinode.Session.{set_user_stopped, set_auto_unlock_pending, NodeSession}
use lokinode.Onboard.Poll.{
  poll_until_ends, Poll, Rounds, EndsFrom, Last, poll_until, unfinished, found, cancelled,
  timed_out,
}
use lokinode.Onboard.Wizard.{
  wallet_exists, said, LaunchError, waiting_nowallet, initializing_wallet, verifying, LaunchPhase,
  thrown, Wizard, idle, done, error, no_error,
}
use lokinode.Onboard.Launch.{
  if_idle, or_fail, fail_with, unless_cancelled, has_left, waits_for_wallet, begin, finish,
  save_config, initialize, waited, init_body, wait_for_wallet, init_wallet, start_daemon,
  start_node, verify, verify_config, handle_launch, Post, World, Launch,
}

module _ {A : Type 0} (predicate : A → Bool) (deadline : ℕ) (r : Rounds A) where
  ends-finished : (p : Poll A) → EndsFrom predicate deadline r 0 p → p ≢ unfinished
  unfolding EndsFrom Last
  ends-finished unfinished (k, l, f, e) q = e
  ends-finished (found x) e q = cc
  ends-finished _ e q = cc

-- the requests of a launch that succeeds
pub all_posts : Wizard → List Post
unfolding trim
all_posts w =
    verify_config w.node_dir (trim w.alias) w.rest_cors w.rpc_listen w.rest_listen
    ∷ start_node
    ∷ init_wallet (init_body w)
    ∷ save_config w.node_dir (trim w.alias) w.rest_cors w.rpc_listen w.rest_listen
    ∷ []

pub Succeeded : World → Wizard → Launch → Type 0
Succeeded world w l =
    (world.verify ≡ none)
    × (world.start ≡ none)
    × (world.init ≡ none)
    × (l.wizard.phase ≡ done)
    × (l.wizard.location ≡ "/node")
    × (l.wizard.launch_error ≡ no_error)
    × (l.wizard.generated_words ≡ [])
    × (l.posts ≡ all_posts w)

pub Failed : Wizard → Launch → Type 0
Failed w l =
    (l.wizard.phase ≡ error)
    × (l.wizard.location ≡ w.location)
    × (l.wizard.generated_words ≡ w.generated_words)
    × (l.wizard.launch_error ≢ no_error)
    × ((n : ℕ) × (n < 4) × (l.posts ≡ take n (all_posts w)))

pub Settled : World → Wizard → Launch → Type 0
Settled world w l = Succeeded world w l ⊎ Failed w l

module _ (w : Wizard) (world : World) where
  or_fail-Settled :
      (o : Option Failure) (sent rest : Launch)
      → ((e : Failure) → Settled world w (fail_with (thrown (failure_message e)) sent))
      → (o ≡ none → Settled world w rest)
      → Settled world w (or_fail o sent rest)
  or_fail-Settled none sent rest f h = h refl
  or_fail-Settled (some e) sent rest f h = f e

  go_on-Settled :
      (b : Bool) (l rest : Launch)
      → b ≡ false
      → Settled world w rest
      → Settled world w (unless_cancelled b l rest)
  go_on-Settled true l rest e h = cc
  go_on-Settled false l rest e h = h

  if_idle-Settled :
      (p : LaunchPhase) (l rest : Launch)
      → p ≡ idle
      → Settled world w rest
      → Settled world w (if_idle p l rest)
  if_idle-Settled idle l rest e h = h
  if_idle-Settled _ l rest e h = cc

  thrown-no_error : (t : String) → thrown t ≢ no_error
  thrown-no_error t e = cc

  module _ (session : NodeSession) where
    -- the launch after its first `n` requests
    abbrev after_posts : LaunchPhase → List Post → Launch
    after_posts p posts = record {
      wizard = record w { phase = p; launch_error = no_error; cancel_launch = false };
      session = session;
      alias_name = trim w.alias;
      posts = posts;
    }

    fail_at :
        (p : LaunchPhase) (n : ℕ) (e : LaunchError)
        → n < 4
        → e ≢ no_error
        → Settled world w (fail_with e (after_posts p (take n (all_posts w))))
    unfolding Settled Failed
    fail_at p n e h i = inr (refl, refl, refl, i, (n, h, refl))

    finish-Settled :
        (p : Poll DaemonState)
        → p ≢ unfinished
        → world.verify ≡ none
        → world.start ≡ none
        → world.init ≡ none
        → Settled world w (finish p (after_posts initializing_wallet (take 3 (all_posts w))))
    unfolding Settled Succeeded finish all_posts
    finish-Settled unfinished h u v i = absurd (h refl)
    finish-Settled (found s) h u v i = inl (u, v, i, refl, refl, refl, refl, refl)
    finish-Settled cancelled h u v i = inl (u, v, i, refl, refl, refl, refl, refl)
    finish-Settled timed_out h u v i = inl (u, v, i, refl, refl, refl, refl, refl)

    module _ (c : world.cancelled_verify ≡ false) (d : world.cancelled_start ≡ false)
        (b : world.cancelled_wait ≡ false)
        (p_ends : poll_until waits_for_wallet 60000 world.wait_start world.wait world.fuel
          ≢ unfinished)
        (q_ends : poll_until has_left 15000 world.leave_start world.leave world.fuel
          ≢ unfinished) where
      initialize-Settled :
          world.verify ≡ none
          → world.start ≡ none
          → Settled world w (initialize world (after_posts waiting_nowallet (take 2 (all_posts w))))
      unfolding initialize all_posts init_body
      initialize-Settled u v =
          or_fail-Settled world.init _ _
            (λ e. fail_at initializing_wallet 3 _ (omega arith) (thrown-no_error _))
            (λ i. finish-Settled _ q_ends u v i)

      waited-Settled :
          (p : Poll DaemonState)
          → p ≢ unfinished
          → world.verify ≡ none
          → world.start ≡ none
          → Settled world w (waited world p (after_posts waiting_nowallet (take 2 (all_posts w))))
      unfolding waited
      waited-Settled unfinished h u v = absurd (h refl)
      waited-Settled cancelled h u v =
          fail_at waiting_nowallet 2 _ (omega arith) (thrown-no_error _)
      waited-Settled timed_out h u v =
          fail_at waiting_nowallet 2 _ (omega arith) (thrown-no_error _)
      waited-Settled (found locked) h u v =
          go_on-Settled world.cancelled_wait _ _ b
            (fail_at waiting_nowallet 2 (said wallet_exists) (omega arith) cc)
      waited-Settled (found s) h u v =
          go_on-Settled world.cancelled_wait _ _ b (initialize-Settled u v)

      start-Settled :
          world.verify ≡ none
          → Settled world w (start_daemon world (after_posts verifying (take 1 (all_posts w))))
      unfolding start_daemon wait_for_wallet all_posts
      start-Settled u =
          or_fail-Settled world.start _ _
            (λ e. fail_at LaunchPhase.starting 2 _ (omega arith) (thrown-no_error _))
            (λ v. go_on-Settled world.cancelled_start _ _ d (waited-Settled _ p_ends u v))

      verify-Settled : Settled world w (verify world (after_posts w.phase []))
      unfolding verify all_posts
      verify-Settled =
          or_fail-Settled world.verify _ _
            (λ e. fail_at verifying 1 _ (omega arith) (thrown-no_error _))
            (λ u. go_on-Settled world.cancelled_verify _ _ c (start-Settled u))

-- A launch that starts and is not cancelled ends, on clocks that each round of its polls moves on, and
-- it ends in one of two ways. Either none of the first three requests failed, and it has sent its
-- four requests in their order, forgotten the words of the new wallet and gone to the page of the node,
-- without an error; or it shows an error,
-- the page and the words are as they were, and what it has sent is a proper part of those requests,
-- from the first on: a node whose start, wait or initialization failed is not saved.
pub launch_settles :
    (w : Wizard) (session : NodeSession) (name : Text) (world : World)
    → w.phase ≡ idle
    → world.cancelled_verify ≡ false
    → world.cancelled_start ≡ false
    → world.cancelled_wait ≡ false
    → ((i : ℕ) → world.wait.now_at i < world.wait.now_at (suc i))
    → world.wait_start ≤ world.wait.now_at 0
    → ((i : ℕ) → world.leave.now_at i < world.leave.now_at (suc i))
    → world.leave_start ≤ world.leave.now_at 0
    → 60000 < world.fuel
    → Settled world w (handle_launch world session name w)
unfolding handle_launch begin
launch_settles w session name world e a b c f g h i j =
    let p =
      ends-finished waits_for_wallet _ world.wait _
        (poll_until_ends waits_for_wallet 60000 world.wait_start world.fuel world.wait f g j) in
    let q =
      ends-finished has_left _ world.leave _ (
        poll_until_ends has_left 15000 world.leave_start world.fuel world.leave h i
          (omega arith)) in
    if_idle-Settled w world w.phase _ _ e (
      verify-Settled w world (set_auto_unlock_pending false (set_user_stopped false session)) a b c
        p q)
