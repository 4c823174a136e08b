-- ===== src/Clipboard/Hidden.antt =====
-- What a row of the credentials gives away.
use lokinode.Common.{
  Bool-cases, List, Option, String, [], arith, inl, inr, none, not, refl, some, str_eq,
  string_tests, true, ℕ, ◌||◌, ◌∷◌, ◌≡◌, ◌≢◌, ◌⊎◌,
}
use lokinode.Daemon.{InfoResponse}
use lokinode.Clipboard.{Copier, timer_fires, fire, copy_value, mark}
use lokinode.Clipboard.Credentials.{
  hex_unavailable, Credential, Row, Act, pick, click, text_written, timer_due, step, shown,
  shown_text, display, creds_hex_ready, is_hex, click_copy,
}

-- a text more on the clipboard, or none
unfoldable pub IsCopied : Credential → Option InfoResponse → Row → Row → Type 0
IsCopied k info r s =
    (s.copier.written ≡ r.copier.written)
    ⊎ ((t : String) × (s.copier.written ≡ t ∷ r.copier.written)
        × (t ≢ "")
        × (shown k r.mode info ≡ shown_text t)
        × ((not (is_hex r.mode) || creds_hex_ready info) ≡ true))

fire-written : (now : ℕ) (ts : List ℕ) (c : Copier) → (fire now ts c).written ≡ c.written
unfolding fire
fire-written now [] c = refl
fire-written now (t ∷ ts) c = ground arith

-- an enabled button
click_copy-IsCopied :
    (k : Credential) (info : Option InfoResponse) (r : Row)
    → IsCopied k info r (click_copy k info r)
unfolding IsCopied click_copy copy_value shown
click_copy-IsCopied k none r = inl refl
click_copy-IsCopied k (some i) r = elim (Bool-cases (str_eq (display k r.mode (some i)) "")) [
  | inl e ↦ rw e (inl refl)
  | inr e ↦ elim (Bool-cases (hex_unavailable r.mode (some i))) [
    | inl u ↦ rw (e, u) (inl refl)
    | inr u ↦
        rw (e, u)
          (inr (display k r.mode (some i), refl, grind (string_tests, e), refl, ground (arith, u)))
  ]
]

-- Whatever happens to a row of the credentials and whatever /api/info answers, the clipboard gets nothing,
-- or the text, not empty, that the row shows at that moment; a text in hexadecimal only while the node
-- runs with its wallet unlocked.
pub step-IsCopied :
    (k : Credential) (now : ℕ) (info : Option InfoResponse) (a : Act) (r : Row)
    → IsCopied k info r (step k now info a r)
unfolding IsCopied step mark timer_fires
step-IsCopied k now info (pick m) r = inl refl
step-IsCopied k now info click r = click_copy-IsCopied k info r
step-IsCopied k now info text_written r = inl refl
step-IsCopied k now info timer_due r = inl (fire-written now r.copier.timers r.copier)
