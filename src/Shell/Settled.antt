-- ===== src/Shell/Settled.antt =====
-- The layout's effect comes to rest, and a dismissed notice comes back.
use lokinode.Common.{
  String, Text, ap, arith, digits, false, is_empty-digits, ltb, not, refl, some, str_eq,
  string_tests, true, ℕ, ◌&&◌, ◌+◌, ◌∙◌, ◌≡◌,
}
use lokinode.Daemon.{InfoResponse}
use lokinode.Version.{Num, num, is_newer_version}
use lokinode.Shell.Layout.{Shell, sync, sync_alias, sync_from, sync_key}
use lokinode.Shell.Update.{Update, dismiss, is_shown, is_snoozed, needs_update, restarted}

names_rest : (name : String) (p : Shell) → sync_alias name (sync_alias name p) ≡ sync_alias name p
unfolding sync_alias
names_rest name p = grind string_tests

key_stays :
    (key name : String) (p : Shell) → (sync_alias name (sync_key key p)).config.pub_key ≡ key
unfolding sync_alias sync_key
key_stays key name p = grind string_tests

-- a key that is there is not set or sent
same_key : (key : String) (p : Shell) → p.config.pub_key ≡ key → sync_key key p ≡ p
unfolding sync_key
same_key key p h = rw h (grind string_tests)

sync_running :
    (i : InfoResponse) (p : Shell)
    → p.info ≡ some i
    → i.node_running ≡ true
    → str_eq i.node_pubkey "" ≡ false
    → sync p ≡ sync_alias i.node_alias (sync_key i.node_pubkey p)
unfolding sync sync_from
sync_running i p h r k = rw (h, sync_from, r, k) refl

info_stays : (key name : String) (p : Shell) → (sync_alias name (sync_key key p)).info ≡ p.info
unfolding sync_alias sync_key
info_stays key name p = ground arith

-- Where /api/info says that a node runs and gives its public key, the effect of the layout, which runs again
-- after each change of what it writes, keeps that key and is at rest after one run: a second run
-- changes nothing and sends nothing.
pub sync_settles :
    (i : InfoResponse) (p : Shell)
    → p.info ≡ some i
    → i.node_running ≡ true
    → str_eq i.node_pubkey "" ≡ false
    → ((sync p).config.pub_key ≡ i.node_pubkey) × (sync (sync p) ≡ sync p)
sync_settles i p h r k =
    let once = sync_running i p h r k in
    let q = sync_alias i.node_alias (sync_key i.node_pubkey p) in
    let key = key_stays i.node_pubkey i.node_alias p in
    let twice =
      sync_running i q (info_stays i.node_pubkey i.node_alias p ∙ h) r k
      ∙ ap (sync_alias i.node_alias) (same_key i.node_pubkey q key)
      ∙ names_rest i.node_alias (sync_key i.node_pubkey p) in
    rw once (key, twice)

module _ (number : Text → Num) where
  -- A notice that is dismissed is not shown again by the same component; after a new start it is shown
  -- exactly if two hours have passed since, and the release is newer than the version that runs.
  -- `Number` reads the time that was stored.
  pub dismissed_notice_returns :
      (now later : ℕ) (u : Update)
      → number (digits now) ≡ num now
      → (is_shown number later (dismiss now u) ≡ false)
        × (is_shown number later (restarted (dismiss now u)) ≡ (
            not (ltb later (now + 7200000)) && is_newer_version number u.latest_version u.version))
  unfolding is_shown is_snoozed needs_update dismiss restarted
  dismissed_notice_returns now later u h = rw (h, is_empty-digits now) (ground arith)
