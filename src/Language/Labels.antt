-- ===== src/Language/Labels.antt =====
-- The texts of the state of the node and of the wizard in every language: frontend/src/pages/Node/Node.tsx
-- and frontend/src/pages/Onboard/Onboard.tsx with frontend/src/i18n/context.tsx.
use lokinode.Common.{Bool, String, refl, some, ◌≡◌}
use lokinode.Translations.Table.{Table}
use lokinode.Translations.Resources.{resources}
use lokinode.Language.Shown.{IsShownIfAny, key-IsShown}
use lokinode.Node.Page.{Page}
use lokinode.Node.Derived.{phase_key}
use lokinode.Node.Texts.{phase_label, phase_sub}
use lokinode.Node.Labels.{phase_label-IsKey, phase_sub-IsKey}
use lokinode.Onboard.Wizard.{Wizard}
use lokinode.Onboard.Texts.{step_title, step_desc}
use lokinode.Onboard.Overlay.{overlay_label, overlay_sub, message_key}
use lokinode.Onboard.Labels.{
  step_title-IsKey, step_desc-IsKey, overlay_label-IsKey, overlay_sub-IsKey, message_key-IsKey,
}

-- In every language of `resources`, these are texts of that language, not empty: whatever the state of the
-- page of the node, the label of the node's state and the line below it, where there is one; and whatever
-- the state of the wizard, the title and the description of its step, the label and the line of the overlay
-- of a launch, where there is one, and the messages at the directory, at the password and at the words or
-- the key to restore from.
pub labels_are_translated :
    (lang : String) (t : Table) (p : Page) (sync_slow : Bool) (w : Wizard)
    → resources lang ≡ some t
    → IsShownIfAny lang t (some (phase_label p))
      × IsShownIfAny lang t (phase_sub sync_slow p)
      × IsShownIfAny lang t (some (step_title w.stage))
      × IsShownIfAny lang t (some (step_desc w.stage))
      × IsShownIfAny lang t (overlay_label w.phase)
      × IsShownIfAny lang t (overlay_sub w.phase)
      × IsShownIfAny lang t (message_key w.dir_error)
      × IsShownIfAny lang t (message_key w.pwd_error)
      × IsShownIfAny lang t (message_key w.restore_error)
labels_are_translated lang t p b w h = (
  key-IsShown lang t _ h (phase_label-IsKey p (phase_key p) refl),
  key-IsShown lang t _ h (phase_sub-IsKey b p (phase_key p) refl),
  key-IsShown lang t _ h (step_title-IsKey w.stage),
  key-IsShown lang t _ h (step_desc-IsKey w.stage),
  key-IsShown lang t _ h (overlay_label-IsKey w.phase),
  key-IsShown lang t _ h (overlay_sub-IsKey w.phase),
  key-IsShown lang t _ h (message_key-IsKey w.dir_error),
  key-IsShown lang t _ h (message_key-IsKey w.pwd_error),
  key-IsShown lang t _ h (message_key-IsKey w.restore_error),
)
