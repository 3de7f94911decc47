-- ===== src/Config/Valid.antt =====
-- What the settings promise once Config.Validate of internal/core/env/config.go has passed them.
use secret_share.Tls.{validate_config}
use secret_share.Std.{Std}
use secret_share.Secrets.Lifecycle.{resolve_ttl_bounds}
use secret_share.Secrets.Handler.{settled, resolve_ttl}
use secret_share.Prelude.{
  arith, ◌≡◌, inr, true, inl, String, none, ap, ◌∙◌, ltb_ℤ, pos, ℤ, leb_ℤ, Option-cases, Bool-cases,
}
use secret_share.Failure.{and_then-inv, passed, passed-inj, unless-inv}
use secret_share.Config.Validate.{
  normalize_limits, normalize_files, validate_auth, validate, check_optional_duration,
}
use secret_share.Config.SignIn.{validate_enabled_lem, IsGuarded}
use secret_share.Config.Providers.{UrlCalls}
use secret_share.Config.Lifetimes.{check_lifetimes_lem, HasLifetimes}
use secret_share.Config.{must_dur, AuthConfig, sweep_interval_duration, Config, max_ttl_duration}
use mathlib.Core.Path.{subst}

module _ (std : Std) (urls : UrlCalls) where
  pub record IsValid (c : Config) : Type 0 where
    pub lifetimes : HasLifetimes std urls c.secrets
    pub stores_something : ltb_ℤ (pos 0) c.secrets.max_size_bytes ≡ true
    pub shows_once : leb_ℤ (pos 1) c.secrets.max_views ≡ true
    pub files_fit : ltb_ℤ (pos 0) c.files.max_size_bytes ≡ true
    pub sweeps : ltb_ℤ (pos 0) (sweep_interval_duration std c.database) ≡ true
    pub tls_fits : validate_config std c.server.tls ≡ none
    pub guarded : c.auth.enabled ≡ true → IsGuarded std urls c.auth

  validate_auth_lem :
      (a b : AuthConfig)
      → validate_auth std urls a ≡ passed b
      → b.enabled ≡ true
      → IsGuarded std urls b
  unfolding validate_auth
  validate_auth_lem a b h on = elim (Bool-cases a.enabled) [
    | inl login ↦ (validate_enabled_lem std urls a b (ground arith)).0
    | inr off ↦ let same : a ≡ b = passed-inj a b (ground arith) in absurd (ground (arith, same))
  ]

  -- Settings that the start of the server accepts are ones it can run with. Every lifetime (the
  -- maximum, the default, each preset) is a positive duration, and none exceeds the maximum; the
  -- limits on sizes and views, and the interval of the sweepers, are positive; the TLS settings are
  -- complete. Where the login is on, the gate is one of the two known ones, the session secret has
  -- 32 bytes or more, sessions last for a positive time, each provider has a URL-safe id that no
  -- other has, a client, scopes, a known default role and an address that leads back to its own
  -- callback, and there is a provider or the local login.
  pub validate-IsValid : (c v : Config) → validate std urls c ≡ passed v → IsValid v
  unfolding validate normalize_limits normalize_files check_optional_duration
      sweep_interval_duration must_dur
  validate-IsValid c v h =
      let (tls, h1) = unless-inv _ _ v h in
      let (interval, h2) = unless-inv _ _ v h1 in
      let (lifetimes, h3) = unless-inv _ _ v h2 in
      let (auth, login, h4) = and_then-inv _ _ v h3 in
      let (metrics, h5) = unless-inv _ _ v h4 in
      subst IsValid (passed-inj _ v h5) (record {
        lifetimes = check_lifetimes_lem std urls (normalize_limits std urls c.secrets) lifetimes;
        stores_something = ground arith;
        shows_once = ground arith;
        files_fit = ground arith;
        sweeps = elim (Option-cases (std.parse_duration c.database.sweep_interval)) [
          | inl e ↦ ground arith
          | inr (d, e) ↦ ground arith
        ];
        tls_fits = tls;
        guarded = validate_auth_lem c.auth auth login;
      })

  -- With settings that the start of the server accepts, a lifetime that a create request gets is
  -- positive and at most the maximum, whatever the request asks for.
  pub resolve_ttl_in_max :
      (c v : Config) (raw : String) (d : ℤ)
      → validate std urls c ≡ passed v
      → resolve_ttl std v.secrets raw ≡ settled d
      → (ltb_ℤ (pos 0) d ≡ true) × (leb_ℤ d (max_ttl_duration std v.secrets) ≡ true)
  resolve_ttl_in_max c v raw d h r =
      let fine = (validate-IsValid c v h).lifetimes in
      let (positive, which) = resolve_ttl_bounds std v.secrets raw d r in
      elim which [
        | inl e ↦
            (positive, ap (λ x. leb_ℤ x (max_ttl_duration std v.secrets)) e ∙ fine.default_in_max)
        | inr e ↦ (positive, e)
      ]
