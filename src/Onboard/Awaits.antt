-- ===== src/Onboard/Awaits.antt =====
-- The wizard of frontend/src/pages/Onboard/Onboard.tsx over time. A press of Next may stop at a request;
-- any inputs, other presses included, may come before its answer, and the answer continues with the
-- values of the render that the press happened in.
use lokinode.Common.{Bool, List, Text, [], true, ◌++◌, ◌∷◌, ◌≡◌}
use lokinode.Session.{Fetched}
use lokinode.Onboard.Wizard.{Wizard, initial_wizard}
use lokinode.Onboard.Steps.{
  Next, settled, checks_dir, asks_seed, handle_next, dir_checked, seed_made, Input, is_shown,
  handle,
}

-- a request of a press that happened at a wizard
pub data Awaited : Type 0 where
  dir_asked seed_asked : Wizard → Awaited

pub record Page : Type 0 where
  pub wizard : Wizard
  pub awaited : List Awaited

abbrev pub initial_page : Page
initial_page = record { wizard = initial_wizard; awaited = [] }

-- what a handler that was made at `seen` leaves: the wizard, and the request that it awaits
unfoldable pub waits_for : Wizard → Next → List Awaited → Page
waits_for seen (settled w) more = record { wizard = w; awaited = more }
waits_for seen (checks_dir w) more = record { wizard = w; awaited = dir_asked seen ∷ more }
waits_for seen (asks_seed w) more = record { wizard = w; awaited = seed_asked seen ∷ more }

unfoldable pub press_next : Page → Page
unfolding waits_for handle_next
press_next p = waits_for p.wizard (handle_next p.wizard) p.awaited

-- the answers to a request, with the requests that are still awaited
unfoldable pub dir_came : Wizard → Fetched Bool → List Awaited → Page → Page
unfolding waits_for dir_checked
dir_came seen d more p = waits_for seen (dir_checked seen d p.wizard) more

unfoldable pub seed_came : Wizard → Fetched (List Text) → List Awaited → Page → Page
unfolding seed_made
seed_came seen s more p = record { wizard = seed_made seen s p.wizard; awaited = more }

-- the mode and the password are those of the press
pub record SameEntries (seen w : Wizard) : Type 0 where
  pub same_mode : w.mode ≡ seen.mode
  pub same_pwd : w.pwd ≡ seen.pwd
  pub same_confirm : w.confirm_pwd ≡ seen.confirm_pwd

-- The pages so far. Of the requests any may be answered next; where the words come, the mode and the
-- password are still those that were there when they were asked for.
pub data Reach : Page → Type 0 where
  opened : Reach initial_page
  acted :
      (i : Input) (p : Page)
      → Reach p
      → is_shown i p.wizard.stage ≡ true
      → Reach (record p { wizard = handle i p.wizard })
  pressed : (p : Page) → Reach p → Reach (press_next p)
  dir_answered :
      (seen : Wizard) (d : Fetched Bool) (before after : List Awaited) (p : Page)
      → Reach p
      → p.awaited ≡ before ++ dir_asked seen ∷ after
      → Reach (dir_came seen d (before ++ after) p)
  seed_answered :
      (seen : Wizard) (s : Fetched (List Text)) (before after : List Awaited) (p : Page)
      → Reach p
      → p.awaited ≡ before ++ seed_asked seen ∷ after
      → SameEntries seen p.wizard
      → Reach (seed_came seen s (before ++ after) p)
