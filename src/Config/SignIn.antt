-- ===== src/Config/SignIn.antt =====
-- The ways to sign in that Config.Validate of internal/core/env/config.go accepts.
use secret_share.Std.{Std}
use secret_share.Prelude.{
  none, String, ap, inr, sym, ◌==◌, inl, len, refl, ◌≤◌, false, ◌∙◌, arith, true, [], ◌&&◌, ◌∷◌,
  eq_iff, ◌≡◌, List, not, ◌||◌, ltb_ℤ, pos, All, Bool-cases, Option-cases,
}
use secret_share.Oidc.Allow.{is_empty, match_email}
use secret_share.Failure.{passed, passed-inj, unless-inv, and_then-inv}
use secret_share.Config.Validate.{
  has_no_provider, check_sign_in, check_optional_duration, check_gate, validate_enabled_auth,
  check_session_secret,
}
use secret_share.Config.Providers.{
  normalize_lists, validate_oidc_provider, matches_id, validate_providers, check_default_role,
  callback_path, validate_fields, check_id, check_redirect, check_client, UrlCalls,
}
use secret_share.Config.{session_ttl_duration, must_dur, OidcProviderConfig, AuthConfig}
use mathlib.Core.Path.{subst}

-- The ids of the providers: none is taken, and none stands twice.
abbrev pub HasFreshIds : List String → List OidcProviderConfig → Type 0
HasFreshIds seen [] = Unit
HasFreshIds seen (q ∷ qs) = (match_email q.id seen ≡ false) × HasFreshIds (q.id ∷ seen) qs

module _ (std : Std) (urls : UrlCalls) where
  -- A provider with which a login can be made: an id for the callback path, the data of the client,
  -- an address that leads back, scopes, a known default role.
  pub record IsUsable (p : OidcProviderConfig) : Type 0 where
    pub id_fits : matches_id p.id ≡ true
    pub has_client : (p.client_id == "" || p.client_secret == "") ≡ false
    pub leads_back :
        urls.has_suffix (urls.trim_right_slash p.redirect_url) (callback_path std urls p.id) ≡ true
    pub has_scopes : is_empty p.scopes ≡ false
    pub has_label : (p.label == "") ≡ false
    pub knows_role :
        (p.default_role == ""
          || p.default_role == "none"
          || p.default_role == "admin"
          || p.default_role == "user")
        ≡ true

  check_id_lem :
      (id : String) (seen : List String)
      → check_id std urls id seen ≡ none
      → (matches_id id ≡ true) × (match_email id seen ≡ false)
  unfolding check_id
  check_id_lem id seen h = ground arith

  validate_fields_lem :
      (p q : OidcProviderConfig)
      → matches_id p.id ≡ true
      → validate_fields std urls p ≡ passed q
      → IsUsable q × (q.id ≡ p.id)
  unfolding validate_fields check_client check_redirect check_default_role normalize_lists
      matches_id
  validate_fields_lem p q fits h =
      let (issuer, h1) = unless-inv _ _ q h in
      let (client, h2) = unless-inv _ _ q h1 in
      let (address, h3) = unless-inv _ _ q h2 in
      let (back, h4) = unless-inv _ _ q h3 in
      let (groups, h5) = unless-inv _ _ q h4 in
      let (role, known, h6) = and_then-inv _ _ q h5 in
      let same = passed-inj _ q h6 in
      subst (λ x. IsUsable x × (x.id ≡ p.id)) same
        ((
          record {
            id_fits = fits;
            has_client = ground arith;
            leads_back = ground arith;
            has_scopes = ground arith;
            has_label = ground (arith, eq_iff p.id "");
            knows_role = ground arith;
          },
          refl,
        ))

  validate_providers_lem :
      (ps qs : List OidcProviderConfig) (seen : List String)
      → validate_providers std urls ps seen ≡ passed qs
      → All IsUsable qs × HasFreshIds seen qs
  unfolding validate_providers validate_oidc_provider
  validate_providers_lem [] qs seen h =
      subst (λ l. All IsUsable l × HasFreshIds seen l) (passed-inj [] qs h) (tt, tt)
  validate_providers_lem (p ∷ ps) qs seen h =
      let ((q, seen'), h1, h2) = and_then-inv _ _ qs h in
      let (free, h3) = unless-inv _ _ (q, seen') h1 in
      let (q', fields, h4) = and_then-inv _ _ (q, seen') h3 in
      let (qs', others, h5) = and_then-inv _ _ qs h2 in
      let same = passed-inj _ (q, seen') h4 in
      let (fits, new) = check_id_lem (std.trim_space p.id) seen free in
      let (usable, id) =
        validate_fields_lem (record p { id = std.trim_space p.id }) q' fits fields in
      let (rest, fresh_ids) = validate_providers_lem ps qs' seen' others in
      let this : q'.id ∷ seen ≡ seen' = ap (λ i. i ∷ seen) id ∙ ap (λ x. x.1) same in
      subst (λ l. All IsUsable l × HasFreshIds seen l) (passed-inj (q ∷ qs') qs h5)
        (subst (λ x. All IsUsable (x ∷ qs') × HasFreshIds seen (x ∷ qs')) (ap (λ x. x.0) same)
          (
            (usable, rest),
            (
              ap (λ i. match_email i seen) id ∙ new,
              subst (λ l. HasFreshIds l qs') (sym this) fresh_ids,
            ),
          ))

  -- A way to sign in that can work.
  pub record IsGuarded (a : AuthConfig) : Type 0 where
    pub gate_known : (a.gate == "create" || a.gate == "all") ≡ true
    pub secret_long : 32 ≤ len a.session_secret
    pub providers_usable : All IsUsable a.oidc
    pub ids_distinct : HasFreshIds [] a.oidc
    pub can_sign_in : (has_no_provider a.oidc && not a.local_login) ≡ false
    pub session_lasts : ltb_ℤ (pos 0) (session_ttl_duration std a) ≡ true

  check_gate_lem :
      (raw gate : String)
      → check_gate std urls raw ≡ passed gate
      → (gate == "create" || gate == "all") ≡ true
  unfolding check_gate
  check_gate_lem raw gate h =
      let g = std.to_lower (std.trim_space raw) in
      elim (Bool-cases (g == "" || g == "create")) [
        | inl open' ↦
            subst (λ x. (x == "create" || x == "all") ≡ true)
              (passed-inj "create" gate (ground arith)) refl
        | inr other ↦ elim (Bool-cases (g == "all")) [
          | inl all ↦
              subst (λ x. (x == "create" || x == "all") ≡ true)
                (passed-inj "all" gate (ground arith)) refl
          | inr wrong ↦ absurd (ground arith)
        ]
      ]

  pub validate_enabled_lem :
      (a b : AuthConfig)
      → validate_enabled_auth std urls a ≡ passed b
      → IsGuarded b × (b.enabled ≡ a.enabled)
  unfolding validate_enabled_auth check_session_secret check_optional_duration check_sign_in
      session_ttl_duration must_dur
  validate_enabled_lem a b h =
      let (gate, known, h1) = and_then-inv _ _ b h in
      let (secret, h2) = unless-inv _ _ b h1 in
      let (lasts, h3) = unless-inv _ _ b h2 in
      let (boot, h4) = unless-inv _ _ b h3 in
      let (ps, checked, h5) = and_then-inv _ _ b h4 in
      let (reach, h6) = unless-inv _ _ b h5 in
      let (usable, ids) = validate_providers_lem a.oidc ps [] checked in
      subst (λ x. IsGuarded x × (x.enabled ≡ a.enabled)) (passed-inj _ b h6)
        (
          record {
            gate_known = check_gate_lem a.gate gate known;
            secret_long = ground arith;
            providers_usable = usable;
            ids_distinct = ids;
            can_sign_in = ground arith;
            session_lasts = elim (Option-cases (std.parse_duration a.session_ttl)) [
              | inl e ↦ ground arith
              | inr (d, e) ↦ ground arith
            ];
          },
          refl,
        )
