-- ===== src/Onboard/Tests.antt =====
-- The wizard and the launch of frontend/src/pages/Onboard/Onboard.tsx at concrete inputs.
use lokinode.Common.{
  Bool, List, [], arith, codes, false, if◌then◌else◌, length, ltb, none, refl, some, suc, text_eq,
  true, ℕ, ◌&&◌, ◌*◌, ◌+◌, ◌<◌, ◌∷◌, ◌≡◌, ◌≤◌, ◌⊎◌,
}
use lokinode.Session.{answered, failed, initial_session}
use lokinode.Daemon.{no_wallet, DaemonState}
use lokinode.Onboard.Wizard.{
  go_next, go_back, password, review, create_wallet, restore_wallet, Wizard, hex, initial_wizard,
}
use lokinode.Onboard.Steps.{
  is_shown, handle, Input, type_pwd, type_confirm, type_hex, pick_kind, picked, offered_dir,
  type_alias,
}
use lokinode.Onboard.Awaits.{
  Page, Reach, initial_page, opened, acted, pressed, dir_answered, press_next, dir_came,
}
use lokinode.Onboard.Poll.{found, Rounds, poll_until_ends, EndsFrom, poll_until}
use lokinode.Onboard.Launch.{init_body, World, waits_for_wallet, handle_launch}
use lokinode.Onboard.Settles.{launch_settles, Settled}
use lokinode.Onboard.Reachable.{FromHex, FromWords, Created, init_is_valid}
use lokinode.Onboard.Races.{in_steps, back_undoes_next}

-- the steps that restore a wallet from a hexadecimal text; the name of the node is typed once more while
-- its directory is looked into
abbrev typed : List Input → Page → Page
typed [] p = p
typed (i ∷ is) p = typed is (record p { wizard = handle i p.wizard })

unfoldable all_shown : List Input → Wizard → Bool
unfolding handle
all_shown [] w = true
all_shown (i ∷ is) w = is_shown i w.stage && all_shown is (handle i w)

typed-Reach :
    (is : List Input) (p : Page) → all_shown is p.wizard ≡ true → Reach p → Reach (typed is p)
unfolding all_shown
typed-Reach [] p h r = r
typed-Reach (i ∷ is) p h r =
    typed-Reach is (record p { wizard = handle i p.wizard }) (ground arith)
      (acted i p r (ground arith))

abbrev first_entries : List Input
first_entries = type_alias (codes "a") ∷ offered_dir (codes "/d") (answered false) ∷ []

abbrev other_name : List Input
other_name = type_alias (codes "b") ∷ []

abbrev wallet_entries : List Input
wallet_entries =
    picked restore_wallet ∷ type_pwd (codes "12345678") ∷ type_confirm (codes "12345678") ∷ []

abbrev hex_entries : List Input
hex_entries = pick_kind hex ∷ type_hex (codes "ab") ∷ []

abbrev entered : Page
entered = typed first_entries initial_page

abbrev asked : Page
asked = press_next entered

abbrev retyped : Page
retyped = typed other_name asked

abbrev answered_page : Page
answered_page = dir_came entered.wizard (answered false) [] retyped

abbrev with_mode : Page
with_mode = typed wallet_entries answered_page

abbrev with_hex : Page
with_hex = typed hex_entries (press_next with_mode)

abbrev reviewed : Page
reviewed = press_next with_hex

reviewed-Reach : Reach reviewed
unfolding all_shown handle press_next dir_came
reviewed-Reach = pressed with_hex (
    typed-Reach hex_entries (press_next with_mode) refl (
      pressed with_mode (
        typed-Reach wallet_entries answered_page refl (
          dir_answered entered.wizard (answered false) [] [] retyped
            (typed-Reach other_name asked refl
              (pressed entered (typed-Reach first_entries initial_page refl opened)))
            refl))))

on_last : reviewed.wizard.stage ≡ review
unfolding handle press_next dir_came
on_last = refl

init_is_valid_example :
    (8 ≤ length (init_body reviewed.wizard).password)
    × (text_eq (init_body reviewed.wizard).password reviewed.wizard.confirm_pwd ≡ true)
    × (Created reviewed.wizard (init_body reviewed.wizard)
        ⊎ FromWords reviewed.wizard (init_body reviewed.wizard)
        ⊎ FromHex reviewed.wizard (init_body reviewed.wizard))
init_is_valid_example = init_is_valid reviewed reviewed-Reach on_last

abbrev with_password : Wizard
with_password = record initial_wizard {
  stage = password;
  mode = some create_wallet;
  pwd = codes "12345678";
  confirm_pwd = codes "12345678";
}

back_undoes_next_example :
    go_back (go_next with_password.mode with_password.stage with_password) ≡ with_password
unfolding in_steps
back_undoes_next_example = back_undoes_next with_password refl refl

-- a clock that starts at 1000 and goes on by 500, with the daemon there from the third round on
abbrev slow_daemon : Rounds DaemonState
slow_daemon = record {
  now_at = λ i. 1000 + 500 * i;
  answer_at = λ i. if ltb i 2 then failed else answered no_wallet;
  cancelled_at = λ i. false;
}

ticks : (i : ℕ) → slow_daemon.now_at i < slow_daemon.now_at (suc i)
ticks i = omega arith

third_round : poll_until waits_for_wallet 60000 1000 slow_daemon 10 ≡ found no_wallet
unfolding poll_until
third_round = refl

poll_until_ends_example :
    EndsFrom waits_for_wallet 61000 slow_daemon 0
      (poll_until waits_for_wallet 60000 1000 slow_daemon 60001)
poll_until_ends_example =
    poll_until_ends waits_for_wallet 60000 1000 60001 slow_daemon ticks (omega arith) (omega arith)

abbrev good_world : World
good_world = record {
  verify = none;
  cancelled_verify = false;
  start = none;
  cancelled_start = false;
  wait_start = 1000;
  wait = slow_daemon;
  cancelled_wait = false;
  init = none;
  leave_start = 1000;
  leave = slow_daemon;
  fuel = 60001;
}

launch_settles_example :
    Settled good_world with_password (handle_launch good_world initial_session [] with_password)
launch_settles_example =
    launch_settles with_password initial_session [] good_world refl refl refl refl ticks
      (omega arith) ticks (omega arith) (omega arith)
