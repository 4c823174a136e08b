-- ===== src/Wallet/Transactions.antt =====
-- The list of transactions, frontend/src/views/node/Transactions.tsx, and the hook
-- frontend/src/hooks/useTransactions.ts. The text of an amount depends on the locale and is left out: a row
-- keeps the number of loki without its sign.
use lokinode.Common.{
  Bool, List, Option, String, Text, [], codes, digits, false, if◌then◌else◌, is_empty, length, ltb,
  negsuc, none, pos, some, suc, ℕ, ℤ, ◌++◌, ◌+◌, ◌-◌, ◌==◌, ◌∷◌,
}
use lokinode.Daemon.{TransactionItem}

-- the answer of GET /api/transactions
pub record Transactions : Type 0 where
  pub transactions : List TransactionItem
  pub total : ℕ

-- `/api/transactions?limit=${limit}&offset=${offset}`
unfoldable pub transactions_key : ℕ → ℕ → Text
unfolding digits
transactions_key limit offset =
    codes "/api/transactions?limit=" ++ digits limit ++ codes "&offset=" ++ digits offset

-- the last line of a row
pub data Confirmations : Type 0 where
  unconfirmed : Confirmations
  conf : ℕ → Confirmations

pub record Row : Type 0 where
  pub tx_hash : String
  pub incoming : Bool
  pub amount : ℕ
  pub confirmations : Confirmations
  pub timestamp : Option ℕ

-- `tx.amount > 0` and `Math.abs(tx.amount)`
abbrev pub is_incoming : ℤ → Bool
is_incoming (pos n) = ltb 0 n
is_incoming (negsuc n) = false

abbrev pub magnitude : ℤ → ℕ
magnitude (pos n) = n
magnitude (negsuc n) = suc n

unfoldable pub row_of : TransactionItem → Row
row_of tx = record {
  tx_hash = tx.tx_hash;
  incoming = is_incoming tx.amount;
  amount = magnitude tx.amount;
  confirmations = if tx.confirmations == 0 then unconfirmed else conf tx.confirmations;
  timestamp = if tx.timestamp == 0 then none else some tx.timestamp;
}

unfoldable pub rows_of : List TransactionItem → List Row
unfolding row_of
rows_of [] = []
rows_of (tx ∷ txs) = row_of tx ∷ rows_of txs

-- what the view shows: bones while it loads, a note where there is nothing, or the rows with the number of
-- those that the button to load more would still bring
pub data Shown : Type 0 where
  loading no_transactions : Shown
  rows : List Row → Option ℕ → Shown

unfoldable pub shown_data : Option Transactions → Shown
unfolding rows_of
shown_data none = no_transactions
shown_data (some d) =
    if is_empty d.transactions
    then no_transactions
    else rows (rows_of d.transactions) (
        if ltb (length d.transactions) d.total
        then some (d.total - length d.transactions)
        else none)

unfoldable pub shown : Bool → Option Transactions → Shown
unfolding shown_data
shown is_loading data? = if is_loading then loading else shown_data data?

-- the button
unfoldable pub load_more : ℕ → ℕ
load_more limit = limit + 50
