-- ===== src/Onboard/Valid.antt =====
-- What the wizard has checked by the time that a step is on the page.
use lokinode.Common.{
  Bool, Option, Text, false, is_blank, is_some, leb, length, not, some, text_eq, trim, true, words,
  ◌&&◌, ◌==◌, ◌≡◌,
}
use lokinode.Onboard.Wizard.{
  node, wallet_mode, password, seed_reveal, restore, create_wallet, restore_wallet, mnemonic, hex,
  same_stage, Stage, WalletMode, RestoreKind, Wizard, review,
}

-- the step comes in the order of the mode
unfoldable pub in_order : Option WalletMode → Stage → Bool
in_order m node = true
in_order m wallet_mode = true
in_order m password = is_some m
in_order (some create_wallet) seed_reveal = true
in_order (some restore_wallet) restore = true
in_order (some m) review = true
in_order _ _ = false

abbrev pub past_password : Stage → Bool
past_password seed_reveal = true
past_password restore = true
past_password review = true
past_password _ = false

abbrev pub is_restore : Option WalletMode → Bool
is_restore (some restore_wallet) = true
is_restore _ = false

unfoldable pub password_is_valid : Text → Text → Bool
unfolding text_eq
password_is_valid p c = leb 8 (length p) && text_eq p c

unfoldable pub kind_is_valid : RestoreKind → Text → Text → Bool
unfolding words trim
kind_is_valid mnemonic m h = length (words m) == 24
kind_is_valid hex m h = not (is_blank h)

unfoldable pub Inv : Wizard → Type 0
Inv w =
    (in_order w.mode w.stage ≡ true)
    × (past_password w.stage ≡ true → password_is_valid w.pwd w.confirm_pwd ≡ true)
    × (same_stage w.stage review ≡ true
        → is_restore w.mode ≡ true
        → kind_is_valid w.restore_kind w.restore_mnemonic w.restore_hex ≡ true)

-- what the checks of the step have found
abbrev pub Checked : Wizard → Type 0
Checked w =
    (same_stage w.stage wallet_mode ≡ true → is_some w.mode ≡ true)
    × (same_stage w.stage password ≡ true → password_is_valid w.pwd w.confirm_pwd ≡ true)
    × (same_stage w.stage restore ≡ true
        → is_restore w.mode ≡ true
        → kind_is_valid w.restore_kind w.restore_mnemonic w.restore_hex ≡ true)
