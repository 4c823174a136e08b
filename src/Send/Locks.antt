-- ===== src/Send/Locks.antt =====
-- The outputs that funding locks in the wallet: the view gives back what it took.
use lokinode.Common.{
  All, List, Option, String, [], arith, false, if◌then◌else◌, inl, is_some, none, refl, some,
  str_eq, true, ℕ, ℤ, ◌++◌, ◌∷◌, ◌≡◌, ◌⊎◌,
}
use lokinode.Fetcher.{ok}
use lokinode.Send.{
  initial, unmount, Page, Call, post_release, OutputLock, truthy, screen, handle_release,
  click_review, review_done, handle_send, finalize_done, publish_done, reset, max_clicked, max_done,
  fees_came,
}
use lokinode.Send.Steps.{Input, handle, review_clicked, fund_answered}

-- the lists of locks that the calls give back, last first
unfoldable pub released : List Call → List (List OutputLock)
released [] = []
released (post_release ls ∷ cs) = ls ∷ released cs
released (_ ∷ cs) = released cs

-- a list of locks that is worth giving back
abbrev pub held : Option (List OutputLock) → List (List OutputLock)
held none = []
held (some []) = []
held (some (l ∷ ls)) = (l ∷ ls) ∷ []

-- what an input adds to the locks that the wallet holds for the view
abbrev pub funded_by : Page → Input → List (List OutputLock)
funded_by p (fund_answered (ok resp)) = if p.is_reviewing then held (some resp.locks) else []
funded_by p _ = []

-- the transaction of an answer is not the empty text
abbrev pub IsSound : Input → Type 0
IsSound (fund_answered (ok resp)) = str_eq resp.psbt "" ≡ false
IsSound _ = Unit

-- the transaction, its fee and its locks are there together, and not while a new one is asked for
pub record IsWhole (p : Page) : Type 0 where
  pub together :
      ((p.psbt ≡ none) × (p.total_fee ≡ none) × (p.locks ≡ none))
      ⊎ ((truthy p.psbt ≡ true) × (is_some p.total_fee ≡ true))
  pub alone : p.is_reviewing ≡ true → p.locks ≡ none

module _ (loki_of : String → Option ℤ) (decimal_of : ℕ → String) where
  -- the view after some inputs, and the locks funded so far, last first
  unfoldable pub run : Page → List (List OutputLock) → List Input → Page × List (List OutputLock)
  run p fs [] = (p, fs)
  run p fs (i ∷ is) = run (handle loki_of decimal_of i p) (funded_by p i ++ fs) is

  abbrev pub IsAccounted : Page → List (List OutputLock) → Type 0
  IsAccounted p fs = IsWhole p × (fs ≡ held p.locks ++ released p.out)

  click_review-IsAccounted :
      (p : Page) (fs : List (List OutputLock))
      → IsAccounted p fs
      → IsAccounted (handle loki_of decimal_of review_clicked p) fs
  unfolding handle screen click_review released
  click_review-IsAccounted p fs h = ground arith

  handle-IsAccounted :
      (i : Input) (p : Page) (fs : List (List OutputLock))
      → IsSound i
      → IsAccounted p fs
      → IsAccounted (handle loki_of decimal_of i p) (funded_by p i ++ fs)
  unfolding handle screen released handle_release review_done handle_send finalize_done publish_done
      reset max_clicked max_done fees_came
  handle-IsAccounted review_clicked p fs s h = click_review-IsAccounted p fs h
  handle-IsAccounted i p fs s h = ground arith

  run-IsAccounted :
      (p : Page) (fs : List (List OutputLock)) (is : List Input)
      → All IsSound is
      → IsAccounted p fs
      → IsAccounted (run p fs is).0 (run p fs is).1
  unfolding run
  run-IsAccounted p fs [] s h = h
  run-IsAccounted p fs (i ∷ is) s h =
      run-IsAccounted (handle loki_of decimal_of i p) (funded_by p i ++ fs) is s.1
        (handle-IsAccounted i p fs s.0 h)

  initial-IsAccounted : IsAccounted initial []
  unfolding released
  initial-IsAccounted = (record { together = inl (refl, refl, refl); alone = λ e. refl }, refl)

  -- After any inputs, where no answer to a funding has an empty transaction, each list of locks that
  -- funding brought was given back once and in order, but for the last, if the view still holds it.
  pub locks_accounted :
      (is : List Input)
      → All IsSound is
      → let (p, fs) = run initial [] is in fs ≡ held p.locks ++ released p.out
  locks_accounted is s = (run-IsAccounted initial [] is s initial-IsAccounted).1

  unmount-releases :
      (p : Page) (fs : List (List OutputLock)) → IsAccounted p fs → released (unmount p).out ≡ fs
  unfolding unmount released
  unmount-releases p fs h = ground arith

  -- When the view leaves after any inputs, where no answer to a funding has an empty transaction, all
  -- locks that the answers so far brought are given back, each list of them once and in order.
  pub unmount_releases_everything :
      (is : List Input)
      → All IsSound is
      → let (p, fs) = run initial [] is in released (unmount p).out ≡ fs
  unmount_releases_everything is s =
      let (p, fs) = run initial [] is in
      unmount-releases p fs (run-IsAccounted initial [] is s initial-IsAccounted)

-- Once a funded transaction with locked inputs is published, leaving the view still asks the wallet to
-- release these inputs, though the transaction has spent them.
pub sent_locks_are_released :
    (p : Page) (tx_id : String) (l : OutputLock) (ls : List OutputLock)
    → truthy p.psbt ≡ true
    → p.locks ≡ some (l ∷ ls)
    → released (unmount (publish_done (ok tx_id) p)).out ≡ (l ∷ ls) ∷ released p.out
unfolding unmount publish_done released
sent_locks_are_released p tx_id l ls h k = ground arith
