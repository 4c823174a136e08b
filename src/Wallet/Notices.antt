-- ===== src/Wallet/Notices.antt =====
-- The notices of payments that come in, frontend/src/hooks/useNotifyIncoming.ts.
use lokinode.Common.{
  Bool, List, Option, String, Text, [], codes, false, if◌then◌else◌, is_le_zero, negsuc, none, not,
  pos, some, str_eq, ℕ, ℤ, ◌&&◌, ◌++◌, ◌==◌, ◌∷◌,
}
use lokinode.Daemon.{TransactionItem}
use lokinode.Wallet.Amounts.{flc_text}

-- `prevHashRef.current`, and the descriptions of the notices so far
pub record Watch : Type 0 where
  pub prev_hash : Option String
  pub notices : List Text

abbrev pub initial_watch : Watch
initial_watch = record { prev_hash = none; notices = [] }

-- `!(latest.amount <= 0) && latest.confirmations !== 0`
abbrev pub is_confirmed_incoming : TransactionItem → Bool
is_confirmed_incoming tx = not (is_le_zero tx.amount) && not (tx.confirmations == 0)

abbrev pub magnitude : ℤ → ℕ
magnitude (pos n) = n
magnitude (negsuc n) = n

-- `prevHashRef.current !== null && prevHashRef.current !== latest.txHash`
abbrev pub is_other : Option String → String → Bool
is_other none hash = false
is_other (some prev) hash = not (str_eq prev hash)

module _ (to_fixed : ℕ → Text) where
  unfoldable pub description : TransactionItem → Text
  unfolding flc_text
  description tx = codes "+" ++ flc_text to_fixed (magnitude tx.amount) ++ codes " FLC"

  unfoldable pub saw_latest : TransactionItem → Watch → Watch
  unfolding description
  saw_latest tx w = record {
    prev_hash = some tx.tx_hash;
    notices =
        if is_other w.prev_hash tx.tx_hash then w.notices ++ description tx ∷ [] else w.notices;
  }

  -- the effect, on the data of /api/transactions
  unfoldable pub on_data : Option (List TransactionItem) → Watch → Watch
  unfolding saw_latest
  on_data none w = w
  on_data (some []) w = w
  on_data (some (tx ∷ txs)) w = if is_confirmed_incoming tx then saw_latest tx w else w

  unfoldable pub run : List (Option (List TransactionItem)) → Watch → Watch
  unfolding on_data
  run [] w = w
  run (d ∷ ds) w = run ds (on_data d w)
