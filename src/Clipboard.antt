-- ===== src/Clipboard.antt =====
-- The buttons that copy a text, with the mark that says so: CopyButton of
-- frontend/src/pages/Node/Node.tsx and frontend/src/views/node/Transactions.tsx, CopyRow of
-- frontend/src/views/settings/Network.tsx, and the buttons of frontend/src/views/node/Receive.tsx,
-- frontend/src/views/node/Send.tsx and frontend/src/pages/Onboard/Onboard.tsx. Times are in milliseconds.
-- `timers` are the times at which the mark goes, in the order in which they were set, since none is
-- cancelled; `written` are the texts given to the clipboard, last first.
pub mod Marks
pub mod Credentials
pub mod Hidden
mod Tests
use lokinode.Common.{
  Bool, List, String, [], false, if◌then◌else◌, leb, str_eq, true, ℕ, ◌++◌, ◌+◌, ◌∷◌,
}

pub record Copier : Type 0 where
  pub copied : Bool
  pub timers : List ℕ
  pub written : List String

abbrev pub initial_copier : Copier
initial_copier = record { copied = false; timers = []; written = [] }

-- `navigator.clipboard.writeText(text)`
abbrev pub write_text : String → Copier → Copier
write_text text c = record c { written = text ∷ c.written }

-- `setCopied(true)` with its timer of `lasting` milliseconds
unfoldable pub mark : ℕ → ℕ → Copier → Copier
mark lasting now c = record c { copied = true; timers = c.timers ++ (now + lasting) ∷ [] }

-- `copy` of the button on the overview; the mark comes when the text is written
abbrev pub copy_text : String → Copier → Copier
copy_text text c = write_text text c

-- `copy` of a row of the network settings and of the address to receive on
unfoldable pub copy_value : String → Copier → Copier
copy_value value c = if str_eq value "" then c else write_text value c

-- the buttons of the list of transactions and of a sent transaction do not wait for the clipboard
unfoldable pub copy_at_once : ℕ → String → Copier → Copier
unfolding mark
copy_at_once now text c = mark 2000 now (write_text text c)

-- `copySeed`, where the clipboard may refuse
unfoldable pub seed_copied : ℕ → Bool → Copier → Copier
unfolding mark
seed_copied now true c = mark 1500 now c
seed_copied now false c = c

-- the earliest timer, if it is due
unfoldable pub fire : ℕ → List ℕ → Copier → Copier
fire now [] c = c
fire now (t ∷ ts) c = if leb t now then record c { copied = false; timers = ts } else c

unfoldable pub timer_fires : ℕ → Copier → Copier
unfolding fire
timer_fires now c = fire now c.timers c
