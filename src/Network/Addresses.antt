-- ===== src/Network/Addresses.antt =====
-- The addresses that the form of frontend/src/views/settings/Network.tsx takes.
use lokinode.Common.{Bool, Text, [], arith, false, refl, sym, true, ℕ, ◌&&◌, ◌||◌, ◌∷◌, ◌≡◌}
use mathlib.Core.List.{append-nil}
use lokinode.Regex.Expr.{star, matches, is_hex}
use lokinode.Regex.Laws.{Matches, matches_iff, m_nothing, m_one, m_seq, m_left, m_done, m_more}
use lokinode.Network.{is_valid_ip, ipv6_re, colon_hex}

abbrev pub all_hex : Text → Bool
all_hex [] = true
all_hex (c ∷ t) = is_hex c && all_hex t

star_hex : (t : Text) → all_hex t ≡ true → Matches (star colon_hex) t
star_hex [] h = m_done
star_hex (c ∷ t) h =
    m_more (c ∷ []) t (c ∷ t) (m_one c (ground arith)) (star_hex t (ground arith)) refl

hex-Matches : (c : ℕ) (t : Text) → all_hex (c ∷ t) ≡ true → Matches ipv6_re (c ∷ t)
hex-Matches c t h =
    m_seq (c ∷ t) [] (c ∷ t)
      (m_seq [] (c ∷ t) (c ∷ t) (m_left m_nothing)
        (m_seq (c ∷ t) [] (c ∷ t)
          (m_seq (c ∷ []) t (c ∷ t) (m_one c (ground arith)) (star_hex t (ground arith)) refl)
          (m_left m_nothing) (sym (append-nil (c ∷ t))))
        refl)
      (m_left m_nothing) (sym (append-nil (c ∷ t)))

or_right : (a b : Bool) → b ≡ true → a || b ≡ true
or_right true b h = refl
or_right false b h = h

-- Every text of hexadecimal digits, however short, counts as a valid address.
pub hex_is_valid_ip : (c : ℕ) (t : Text) → all_hex (c ∷ t) ≡ true → is_valid_ip (c ∷ t) ≡ true
unfolding is_valid_ip
hex_is_valid_ip c t h =
    let m : matches ipv6_re (c ∷ t) ≡ true = (matches_iff ipv6_re (c ∷ t)).1 (hex-Matches c t h) in
    or_right _ _ m
