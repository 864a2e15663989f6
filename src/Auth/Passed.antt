-- ===== src/Auth/Passed.antt =====
-- Which requests pass the authentication.
use flowbroker.Prelude.{
  String, true, false, Option, none, some, ◌≡◌, ◌≢◌, ◌⊎◌, inl, inr, refl, sym, ◌∙◌, ap,
  Option-cases, Bool-cases, some-inj, none≢some, false≢true,
}
use flowbroker.Json.{Value, null, boolean, num, str, arr, obj}
use flowbroker.Auth.{
  Visit, TokenData, Gate, passes, unauthorized, crashes, middle_part, is_blank, is_missing,
  auth_parse, auth_enforce, is_open, authorize,
}

Gate-cases : (g : Gate) → ((r : Visit) × (g ≡ passes r)) ⊎ ((g ≡ unauthorized) ⊎ (g ≡ crashes))
Gate-cases (passes r) = inl (r, refl)
Gate-cases unauthorized = inr (inl refl)
Gate-cases crashes = inr (inr refl)

unauthorized≢passes : {r : Visit} → unauthorized ≢ passes r
unauthorized≢passes h = cc

crashes≢passes : {r : Visit} → crashes ≢ passes r
crashes≢passes h = cc

passes-inj : {r s : Visit} → passes r ≡ passes s → r ≡ s
passes-inj h = cc

-- A text that is not blank.
abbrev pub Filled : Option Value → Type 0
Filled v = (s : String) × (v ≡ some (str s)) × (is_blank s ≡ false)

is_missing-Filled : (v : Option Value) → is_missing v ≡ some false → Filled v
unfolding is_missing
is_missing-Filled none h = absurd (false≢true (sym (some-inj h)))
is_missing-Filled (some (str s)) h = (s, refl, some-inj h)
is_missing-Filled (some null) h = absurd (none≢some h)
is_missing-Filled (some (boolean b)) h = absurd (none≢some h)
is_missing-Filled (some (num n)) h = absurd (none≢some h)
is_missing-Filled (some (arr xs fs)) h = absurd (none≢some h)
is_missing-Filled (some (obj fs)) h = absurd (none≢some h)

-- The user and the service of a request, and its path.
abbrev pub Says : Visit → String → Option Value → Option Value → Type 0
Says r path user service = (r.path ≡ path) × (r.user ≡ user) × (r.service ≡ service)

of_passed : (v r : Visit) → passes v ≡ passes r → Says r v.path v.user v.service
of_passed v r h =
    let e = sym (passes-inj h) in
    (ap (λ (x : Visit). x.path) e, ap (λ (x : Visit). x.user) e, ap (λ (x : Visit). x.service) e)

module _ (decode : String → Option TokenData) where
  -- The token of a request, and what it says.
  abbrev pub HasToken : Visit → TokenData → Type 0
  HasToken req t =
      (raw part : String) × (req.authorization ≡ some raw)
      × (middle_part raw ≡ some part)
      × (decode part ≡ some t)

  auth_parse_cases :
      (req r : Visit)
      → auth_parse decode req ≡ passes r
      → ((req.authorization ≡ none) × Says r req.path req.user req.service)
        ⊎ ((t : TokenData) × HasToken req t × Says r req.path t.username t.service)
  unfolding auth_parse
  auth_parse_cases req r h = elim (Option-cases req.authorization) [
    | inl n ↦ inl (n, of_passed _ r (rw (n, auth_parse) at h))
    | inr (raw, a) ↦ elim (Option-cases (middle_part raw)) [
      | inl n ↦ absurd (unauthorized≢passes (rw (a, n, auth_parse) at h))
      | inr (part, p) ↦ elim (Option-cases (decode part)) [
        | inl n ↦ absurd (crashes≢passes (rw (a, p, n, auth_parse) at h))
        | inr (t, d) ↦ inr (t, (raw, part, a, p, d), of_passed _ r (rw (a, p, d, auth_parse) at h))
      ]
    ]
  ]

  auth_enforce_cases :
      (req r : Visit)
      → auth_enforce decode req ≡ passes r
      → (is_open req.path ≡ true) ⊎ (Filled req.user × Filled req.service)
  unfolding auth_enforce
  auth_enforce_cases req r h = elim (Bool-cases (is_open req.path)) [
    | inl o ↦ inl o
    | inr o ↦ elim (Option-cases (is_missing req.user)) [
      | inl n ↦ absurd (crashes≢passes (rw (o, n, auth_enforce) at h))
      | inr (true, u) ↦ absurd (unauthorized≢passes (rw (o, u, auth_enforce) at h))
      | inr (false, u) ↦ elim (Option-cases (is_missing req.service)) [
        | inl n ↦ absurd (crashes≢passes (rw (o, u, n, auth_enforce) at h))
        | inr (true, s) ↦ absurd (unauthorized≢passes (rw (o, u, s, auth_enforce) at h))
        | inr (false, s) ↦ inr (is_missing-Filled req.user u, is_missing-Filled req.service s)
      ]
    ]
  ]

  authorize_cases :
      (req r : Visit)
      → authorize decode req ≡ passes r
      → (p : Visit) × (auth_parse decode req ≡ passes p) × (auth_enforce decode p ≡ passes r)
  unfolding authorize
  authorize_cases req r h = elim (Gate-cases (auth_parse decode req)) [
    | inl (p, e) ↦ (p, e, rw (e, authorize) at h)
    | inr (inl e) ↦ absurd (unauthorized≢passes (rw (e, authorize) at h))
    | inr (inr e) ↦ absurd (crashes≢passes (rw (e, authorize) at h))
  ]

  -- A request that comes in without a user and passes both steps: its path is one that needs no token, or
  -- it has a token of three parts, of which the middle one decodes to a user and a service that are texts
  -- and not blank.
  pub authorize-HasToken :
      (req r : Visit)
      → req.user ≡ none
      → authorize decode req ≡ passes r
      → (is_open req.path ≡ true)
        ⊎ ((t : TokenData) × HasToken req t × Filled t.username × Filled t.service)
  authorize-HasToken req r new h =
      let (p, first, second) = authorize_cases req r h in
      elim (auth_enforce_cases p r second) [
        | inl o ↦ elim (auth_parse_cases req p first) [
          | inl (n, s) ↦ inl (rw (sym s.0) o)
          | inr (t, k, s) ↦ inl (rw (sym s.0) o)
        ]
        | inr (u, v) ↦ elim (auth_parse_cases req p first) [
          | inl (n, s) ↦ absurd (none≢some (sym new ∙ sym s.1 ∙ u.1))
          | inr (t, k, s) ↦ inr (t, k, rw (sym s.1) u, rw (sym s.2) v)
        ]
      ]
