-- ===== src/Wallet/Payments.antt =====
-- What the notices of frontend/src/hooks/useNotifyIncoming.ts amount to, said of the whole history of the
-- data instead of a reference that each render overwrites.
use lokinode.Common.{
  Bool, Bool-cases, List, Option, String, Text, [], ap, arith, false, if◌then◌else◌, inl, inr, map,
  none, refl, some, str_eq, sym, true, ℕ, ◌++◌, ◌∙◌, ◌∷◌, ◌≡◌,
}
use mathlib.Core.List.{append-nil, append_assoc}
use lokinode.Daemon.{TransactionItem}
use lokinode.Wallet.Notices.{
  Watch, description, initial_watch, is_confirmed_incoming, is_other, on_data, run, saw_latest,
}

-- the payments that the data showed at its top, confirmed and coming in, one after the other
unfoldable pub payments : List (Option (List TransactionItem)) → List TransactionItem
payments [] = []
payments (some (tx ∷ txs) ∷ ds) =
    let rest = payments ds in if is_confirmed_incoming tx then tx ∷ rest else rest
payments (_ ∷ ds) = payments ds

-- the payments that differ from the one shown before
unfoldable pub changes : String → List TransactionItem → List TransactionItem
changes prev [] = []
changes prev (tx ∷ txs) =
    let rest = changes tx.tx_hash txs in if str_eq prev tx.tx_hash then rest else tx ∷ rest

-- all but the first one that was ever shown
unfoldable pub news : List TransactionItem → List TransactionItem
news [] = []
news (tx ∷ txs) = changes tx.tx_hash txs

abbrev news_after : Option String → List TransactionItem → List TransactionItem
news_after none txs = news txs
news_after (some prev) txs = changes prev txs

module _ (to_fixed : ℕ → Text) where
  abbrev told : Option String → List TransactionItem → List Text
  told prev txs = map (description to_fixed) (news_after prev txs)

  told-first :
      (prev : Option String) (tx : TransactionItem) (txs : List TransactionItem)
      → told prev (tx ∷ txs)
        ≡ (if is_other prev tx.tx_hash then (description to_fixed) tx ∷ [] else [])
          ++ told (some tx.tx_hash) txs
  unfolding news changes
  told-first none tx txs = refl
  told-first (some prev) tx txs = ground arith

  told-nil : (ns : List Text) (prev : Option String) → ns ≡ ns ++ told prev []
  unfolding news changes
  told-nil ns none = sym (append-nil ns)
  told-nil ns (some p) = sym (append-nil ns)

  append_if :
      (b : Bool) (ns : List Text) (d : Text)
      → (if b then ns ++ d ∷ [] else ns) ≡ ns ++ (if b then d ∷ [] else [])
  append_if true ns d = refl
  append_if false ns d = sym (append-nil ns)

  saw_latest-notices :
      (tx : TransactionItem) (w : Watch)
      → (saw_latest to_fixed tx w).notices
        ≡ w.notices
          ++ (if is_other w.prev_hash tx.tx_hash then (description to_fixed) tx ∷ [] else [])
  unfolding saw_latest
  saw_latest-notices tx w =
      append_if (is_other w.prev_hash tx.tx_hash) w.notices ((description to_fixed) tx)

  run-told :
      (ds : List (Option (List TransactionItem))) (w : Watch)
      → (run to_fixed ds w).notices ≡ w.notices ++ told w.prev_hash (payments ds)
  unfolding run on_data saw_latest payments
  run-told [] w = told-nil w.notices w.prev_hash
  run-told (none ∷ ds) w = run-told ds w
  run-told (some [] ∷ ds) w = run-told ds w
  run-told (some (tx ∷ txs) ∷ ds) w = elim (Bool-cases (is_confirmed_incoming tx)) [
    | inl shown ↦
        rw (shown, run, on_data)
          (run-told ds (saw_latest to_fixed tx w)
            ∙ ap (λ ns. ns ++ told (some tx.tx_hash) (payments ds)) (saw_latest-notices tx w)
            ∙ append_assoc w.notices _ _
            ∙ ap (λ ns. w.notices ++ ns) (sym (told-first w.prev_hash tx (payments ds))))
    | inr hidden ↦ rw (hidden, run, on_data) (run-told ds w)
  ]

  -- After any sequence of answers the notices are those of the payments that came to the top of the
  -- transactions, confirmed and incoming, each as it differs from the one before, but for the first of them.
  pub notices_are_news :
      (ds : List (Option (List TransactionItem)))
      → (run to_fixed ds initial_watch).notices ≡ map (description to_fixed) (news (payments ds))
  notices_are_news ds = run-told ds initial_watch
