-- ===== src/Network/Apply.antt =====
-- The restart that applies the form of frontend/src/views/settings/Network.tsx.
use mathlib.Core.Path.{subst}
use lokinode.Common.{
  All, Bool, Bool-cases, List, Option, Text, [], ap, arith, codes, false, if◌then◌else◌, inl, inr,
  is_blank, is_empty, none, not, refl, some, sym, text_eq, text_eq→eq, true, ℕ, ◌+◌, ◌||◌, ◌∷◌, ◌≡◌,
  ◌≢◌, ◌⊎◌,
}
use lokinode.Regex.Expr.{matches}
use lokinode.Regex.Laws.{Matches, matches_iff}
use lokinode.Network.{
  ipv4_re, ipv6_re, is_origin, parts_of, all_origins, is_valid_cors, is_valid_ip, ip_error,
  ip_missing, cors_error, NetworkForm, Url, Page, save_config, has_issues, handle_apply_and_restart,
  apply_form,
}

-- an address of the shape that one of the two expressions describes
unfoldable pub IsAddress : Text → Type 0
IsAddress ip = Matches ipv4_re ip ⊎ Matches ipv6_re ip

-- a URL of an origin alone, over http or https
pub record IsOriginUrl (url : Url) : Type 0 where
  pub over_http : (url.protocol ≡ codes "http:") ⊎ (url.protocol ≡ codes "https:")
  pub at_root : url.pathname ≡ codes "/"
  pub no_search : url.search ≡ []
  pub no_hash : url.hash ≡ []

http_or_https :
    (t : Text)
    → (text_eq t (codes "http:") || text_eq t (codes "https:")) ≡ true
    → (t ≡ codes "http:") ⊎ (t ≡ codes "https:")
http_or_https t h = elim (Bool-cases (text_eq t (codes "http:"))) [
  | inl e ↦ inl (text_eq→eq t (codes "http:") e)
  | inr e ↦ inr (text_eq→eq t (codes "https:") (ground (arith, e, h)))
]

no_address : (t : Text) → t ≡ [] → is_empty t ≡ false → ⊥
no_address t e h = cc (ap is_empty e)

empty-nil : (t : Text) → is_empty t ≡ true → t ≡ []
empty-nil [] h = refl
empty-nil (c ∷ t) h = cc

matching-IsAddress : (ip : Text) → is_valid_ip ip ≡ true → IsAddress ip
unfolding is_valid_ip IsAddress
matching-IsAddress ip h = elim (Bool-cases (matches ipv4_re ip)) [
  | inl e ↦ inl ((matches_iff ipv4_re ip).0 e)
  | inr e ↦ inr ((matches_iff ipv6_re ip).0 (ground (arith, e, h)))
]

module _ (parse_url : Text → Option Url) where
  -- one of the comma-separated parts: a star or an origin
  pub IsOriginPart : Text → Type 0
  IsOriginPart p = (p ≡ codes "*") ⊎ ((u : Url) × (parse_url p ≡ some u) × IsOriginUrl u)

  -- The form names an address if the node is public, of the right shape, and its origins are blank or
  -- each a star or an origin.
  pub record IsValidForm (f : NetworkForm) : Type 0 where
    pub address : (f.node_public ≡ false) ⊎ ((f.node_ip ≢ []) × IsAddress f.node_ip)
    pub origins : (is_blank f.rest_cors ≡ true) ⊎ All IsOriginPart (parts_of f.rest_cors)

  is_origin-IsOriginUrl : (u : Url) → is_origin (some u) ≡ true → IsOriginUrl u
  unfolding is_origin
  is_origin-IsOriginUrl u h = record {
    over_http = http_or_https u.protocol (ground arith);
    at_root = text_eq→eq u.pathname (codes "/") (ground arith);
    no_search = empty-nil u.search (ground arith);
    no_hash = empty-nil u.hash (ground arith);
  }

  origin_part : (p : Text) (o : Option Url) → parse_url p ≡ o → is_origin o ≡ true → IsOriginPart p
  unfolding is_origin IsOriginPart
  origin_part p none e h = cc
  origin_part p (some u) e h = inr (u, e, is_origin-IsOriginUrl u h)

  all_origins-All : (ps : List Text) → all_origins parse_url ps ≡ true → All IsOriginPart ps
  unfolding all_origins IsOriginPart
  all_origins-All [] h = tt
  all_origins-All (p ∷ ps) h = elim (Bool-cases (text_eq p (codes "*"))) [
    | inl e ↦ (inl (text_eq→eq p (codes "*") e), all_origins-All ps (ground (arith, e, h)))
    | inr e ↦ (
      origin_part p (parse_url p) refl (ground (arith, e, h)),
      all_origins-All ps (ground (arith, e, h)),
    )
  ]

  star_part : All IsOriginPart (parts_of (codes "*"))
  unfolding IsOriginPart parts_of
  star_part = (inl refl, tt)

  valid_origins :
      (cors : Text)
      → is_valid_cors parse_url cors ≡ true
      → (is_blank cors ≡ true) ⊎ All IsOriginPart (parts_of cors)
  unfolding is_valid_cors
  valid_origins cors h = elim (Bool-cases (text_eq cors (codes "*"))) [
    | inl e ↦
        inr (
          subst (λ c. All IsOriginPart (parts_of c)) (sym (text_eq→eq cors (codes "*") e))
            star_part)
    | inr e ↦ elim (Bool-cases (is_blank cors)) [
      | inl b ↦ inl b
      | inr b ↦ inr (all_origins-All (parts_of cors) (ground (arith, e, b, h)))
    ]
  ]

  has_issues-IsAddress :
      (f : NetworkForm) (b : Bool)
      → f.node_public ≡ b
      → has_issues parse_url f ≡ false
      → (f.node_public ≡ false) ⊎ ((f.node_ip ≢ []) × IsAddress f.node_ip)
  unfolding has_issues ip_error ip_missing
  has_issues-IsAddress f false e h = inl e
  has_issues-IsAddress f true e h = inr (
    λ n. absurd (no_address f.node_ip n (ground (arith, e, h))),
    matching-IsAddress f.node_ip (ground (arith, e, h)),
  )

  no_issues-IsValidForm : (f : NetworkForm) → has_issues parse_url f ≡ false → IsValidForm f
  unfolding has_issues cors_error
  no_issues-IsValidForm f h = record {
    address = has_issues-IsAddress f f.node_public refl h;
    origins = valid_origins f.rest_cors (ground (arith, h));
  }

-- what a click that saves the configuration has found and done
pub Confirmed : (Text → Option Url) → Page → Page → NetworkForm → Type 0
Confirmed parse_url p q f =
    (p.form ≡ some f)
    × (p.restart_armed ≡ true)
    × (p.restarting ≡ false)
    × IsValidForm parse_url f
    × (q.restarting ≡ true)
    × (q.posts ≡ save_config p.node_dir p.pub_key f ∷ p.posts)

module _ (parse_url : Text → Option Url) (now : ℕ) where
  chosen :
      (p : Page) (f : NetworkForm) (b a : Bool)
      → p.form ≡ some f
      → p.restarting ≡ false
      → has_issues parse_url f ≡ b
      → p.restart_armed ≡ a
      → let q : Page =
          (if b
            then p
            else if not a
            then record p { restart_armed = true; restart_timer = some (now + 3000) }
            else record p {
              restarting = true;
              posts = save_config p.node_dir p.pub_key f ∷ p.posts;
            }) in
        (q.posts ≡ p.posts) ⊎ ((g : NetworkForm) × Confirmed parse_url p q g)
  unfolding Confirmed
  chosen p f true a e r h k = inl refl
  chosen p f false false e r h k = inl refl
  chosen p f false true e r h k =
      inr (f, (e, k, r, no_issues-IsValidForm parse_url f h, refl, refl))

  confirmed :
      (p : Page) (f : NetworkForm)
      → p.form ≡ some f
      → p.restarting ≡ false
      → let q = apply_form parse_url now f p in
        (q.posts ≡ p.posts) ⊎ ((g : NetworkForm) × Confirmed parse_url p q g)
  unfolding apply_form
  confirmed p f e r = chosen p f (has_issues parse_url f) p.restart_armed e r refl refl

  unless_restarting :
      (p : Page) (f : NetworkForm) (b : Bool)
      → p.form ≡ some f
      → p.restarting ≡ b
      → let q = if b then p else apply_form parse_url now f p in
        (q.posts ≡ p.posts) ⊎ ((g : NetworkForm) × Confirmed parse_url p q g)
  unless_restarting p f true e r = inl refl
  unless_restarting p f false e r = confirmed p f e r

  apply_at :
      (p : Page) (o : Option NetworkForm)
      → p.form ≡ o
      → let q : Page = (elim o as (λ x. Page) [
        | none ↦ p
        | some f ↦ if p.restarting then p else apply_form parse_url now f p
      ]) in
        (q.posts ≡ p.posts) ⊎ ((f : NetworkForm) × Confirmed parse_url p q f)
  apply_at p none e = inl refl
  apply_at p (some f) e = unless_restarting p f p.restarting e refl

  -- A click on the button that applies the form sends nothing, or it saves the form as it is, in the
  -- directory of the node: then it is the confirming click, no restart is under way, a public node has an
  -- address of the shape that one of the two expressions for it describes, and the origins are blank or
  -- each a star or the URL of an origin alone over http or https.
  pub apply_saves_valid_form :
      (p : Page)
      → let q = handle_apply_and_restart parse_url now p in
        (q.posts ≡ p.posts) ⊎ ((f : NetworkForm) × Confirmed parse_url p q f)
  unfolding handle_apply_and_restart
  apply_saves_valid_form p = apply_at p p.form refl
