-- ===== src/Node/Watchdog.antt =====
-- The watch on a boot that makes no progress.
use lokinode.Node.Derived.{state, is_down}
use lokinode.Node.Steps.{Input, main_clicked, is_due, stall_due, handle}
use lokinode.Common.{
  Bool, Bool-cases, arith, false, inl, inr, refl, some, sym, true, ℕ, ◌+◌, ◌<◌, ◌∙◌, ◌≡◌, ◌≤◌, ◌⊎◌,
}
use lokinode.Node.Page.{Page}
use lokinode.Node.Effects.{in_boot_limbo, restart_stalled_timeout_ms}
use lokinode.Node.Commit.{boot_changed, commit}
use lokinode.Node.Watch.{Watching, commit-Watching, commit-Unwatched}
use lokinode.Node.Limbo.{is_proper, limbo-changed}

-- every input but the click that may ask for a restart
abbrev pub leaves_watch : Input → Bool
leaves_watch main_clicked = false
leaves_watch _ = true

-- The page from the first commit of a render that finds the boot in limbo, at the time `began`: any inputs
-- but a click on the main button, and renders that find it in limbo. `Stalling began now r p` has the last
-- render `r` and the page `p`.
pub data Stalling (began : ℕ) : ℕ → Page → Page → Type 0 where
  stalls :
      (a r : Page)
      → is_proper (state a) ≡ true
      → in_boot_limbo a ≡ false
      → in_boot_limbo r ≡ true
      → r.boot_stalled_since ≡ 0
      → Stalling began began r (commit began a r)
  stalling_input :
      {now : ℕ} {r p : Page} (later : ℕ) (i : Input)
      → Stalling began now r p
      → now ≤ later
      → leaves_watch i ≡ true
      → Stalling began later r (handle later i p)
  stalling_render :
      {now : ℕ} {r p : Page} (later : ℕ)
      → Stalling began now r p
      → now ≤ later
      → in_boot_limbo p ≡ true
      → Stalling began later p (commit later r p)

-- the watch has given up, or its timer stands a minute after the beginning
record IsWatched (began now : ℕ) (p : Page) : Type 0 where
  late : began ≤ now
  since : p.boot_stalled_since ≡ began
  waits : p.restart_stalled ≡ false → p.stall_timer ≡ some (began + restart_stalled_timeout_ms)

handle-Watch :
    (later : ℕ) (i : Input) (p : Page)
    → leaves_watch i ≡ true
    → let q = handle later i p in
      (q.boot_stalled_since ≡ p.boot_stalled_since)
      × ((q.restart_stalled ≡ true)
          ⊎ ((q.restart_stalled ≡ p.restart_stalled) × (q.stall_timer ≡ p.stall_timer)))
unfolding handle
handle-Watch later i p h = ground arith

Watching-IsWatched :
    (began now : ℕ) (r q : Page)
    → 0 < began
    → began ≤ now
    → Watching now r q
    → (r.boot_stalled_since ≡ began) ⊎ ((r.boot_stalled_since ≡ 0) × (now ≡ began))
    → IsWatched began now q
Watching-IsWatched began now r q s l w h =
    let since_began : q.boot_stalled_since ≡ began = ground (arith, w.since, h) in
    record {
      late = l;
      since = since_began;
      waits = λ n. ground (arith, w.stalled, w.timer, since_began, n);
    }

Stalling-IsWatched :
    (began : ℕ) {now : ℕ} {r p : Page} → 0 < began → Stalling began now r p → IsWatched began now p
Stalling-IsWatched began s (stalls a r g h k z) =
    Watching-IsWatched began began r (commit began a r) s (omega arith)
      (commit-Watching began a r (limbo-changed a r g h k) k) (inr (z, refl))
Stalling-IsWatched began s (stalling_input {r = r} {p = p} later i t l h) =
    let w = Stalling-IsWatched began s t in
    let v = handle-Watch later i p h in
    record {
      late = omega (arith, w.late, l);
      since = v.0 ∙ w.since;
      waits = λ n. ground (arith, v.1, w.waits, n);
    }
Stalling-IsWatched began s (stalling_render {r = r} {p = p} later t l k) =
    let w = Stalling-IsWatched began s t in
    elim (Bool-cases (boot_changed r p)) [
      | inl e ↦
          Watching-IsWatched began later p (commit later r p) s (omega (arith, w.late, l))
            (commit-Watching later r p e k) (inl w.since)
      | inr e ↦
          let v = commit-Unwatched later r p e in
          record {
            late = omega (arith, w.late, l);
            since = v.0 ∙ w.since;
            waits = λ n. v.2 ∙ w.waits (sym v.1 ∙ n);
          }
    ]

-- A boot that is in limbo at a render and was not at the one before, with no watch running, ends on the
-- error screen: whatever happens for a minute but a click on the main button, as long as each render finds
-- it in limbo, the page is down when the timer of the watch has fired, unless the user has stopped the
-- node or a restart or a recovery is awaited then. A state that the source does not name is not spelt
-- like one of a boot.
pub stalled_boot_is_shown :
    (began now later : ℕ) (r p : Page)
    → Stalling began now r p
    → 0 < began
    → began + restart_stalled_timeout_ms ≤ later
    → p.session.user_stopped ≡ false
    → p.is_retrying ≡ false
    → p.is_recovering ≡ false
    → is_down (handle later stall_due p) ≡ true
unfolding handle is_down
stalled_boot_is_shown began now later r p t s l stopped retry recover =
    let w = Stalling-IsWatched began s t in
    elim (Bool-cases p.restart_stalled) [
      | inl e ↦ ground (arith, e)
      | inr e ↦
          let due : is_due later p.stall_timer ≡ true = rw (w.waits e) (ground arith) in
          rw due (ground arith)
    ]
