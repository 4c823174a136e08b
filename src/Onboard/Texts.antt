-- ===== src/Onboard/Texts.antt =====
-- What the frame of the wizard of frontend/src/pages/Onboard/Onboard.tsx shows of each step, its texts by
-- their translation keys.
use lokinode.Common.{
  Bool, List, String, [], any, false, if◌then◌else◌, is_some, length, ltb, not, suc, ℕ, ◌+◌, ◌==◌,
  ◌∷◌,
}
use lokinode.Onboard.Wizard.{
  Stage, Wizard, node, order, password, restore, review, same_stage, seed_reveal, wallet_mode,
}

abbrev pub step_title : Stage → String
step_title node = "onboard.node.title"
step_title wallet_mode = "onboard.wallet.title"
step_title password = "onboard.password.title"
step_title seed_reveal = "onboard.launch.reveal_title"
step_title restore = "onboard.restore.title"
step_title review = "onboard.review.title"

abbrev pub step_desc : Stage → String
step_desc node = "onboard.node.desc"
step_desc wallet_mode = "onboard.wallet.desc"
step_desc password = "onboard.password.desc"
step_desc seed_reveal = "onboard.launch.reveal_desc"
step_desc restore = "onboard.restore.desc"
step_desc review = "onboard.review.desc"

-- `order.indexOf(step)` for a step of the order
unfoldable pub index_of : Stage → List Stage → ℕ
index_of s [] = 0
index_of s (p ∷ ps) = let rest = index_of s ps in if same_stage s p then 0 else suc rest

-- `Math.max(0, order.indexOf(step))`
unfoldable pub step_index : Wizard → ℕ
unfolding index_of
step_index w =
    if any (same_stage w.stage) (order w.mode) then index_of w.stage (order w.mode) else 0

pub data Dot : Type 0 where
  passed current ahead : Dot

unfoldable pub dots_from : ℕ → ℕ → List Stage → List Dot
dots_from i now [] = []
dots_from i now (p ∷ ps) =
    (if ltb i now then passed else if i == now then current else ahead) ∷ dots_from (suc i) now ps

unfoldable pub progress_dots : Wizard → List Dot
unfolding step_index dots_from
progress_dots w = dots_from 0 (step_index w) (order w.mode)

-- the numbers of `onboard.step_x_of_y`
unfoldable pub step_x_of_y : Wizard → ℕ × ℕ
unfolding step_index
step_x_of_y w = (step_index w + 1, length (order w.mode))

-- the button to go on
unfoldable pub next_disabled : Wizard → Bool
next_disabled w = elim w.stage [
  | wallet_mode ↦ not (is_some w.mode)
  | seed_reveal ↦ not w.seed_ack
  | _ ↦ false
]
