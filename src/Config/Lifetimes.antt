-- ===== src/Config/Lifetimes.antt =====
-- The lifetimes that Config.Validate of internal/core/env/config.go accepts.
use secret_share.Std.{Std}
use secret_share.Prelude.{
  sym, [], List, inr, eq_iff, some, true, none, inl, arith, ◌∷◌, ◌≡◌, String, pos, ℤ, leb_ℤ, ltb_ℤ,
  All, Option-cases,
}
use secret_share.Failure.{and_then, unless}
use secret_share.Config.Validate.{check_lifetimes, check_allowed, parse_required_duration}
use secret_share.Config.Providers.{UrlCalls}
use secret_share.Config.{max_ttl_duration, default_ttl_duration, SecretsConfig, must_dur}
use mathlib.Core.Path.{subst}

module _ (std : Std) (urls : UrlCalls) where
  -- Lifetimes of the settings: each parses, is positive, and is at most the maximum.
  pub record HasLifetimes (c : SecretsConfig) : Type 0 where
    pub max_positive : ltb_ℤ (pos 0) (max_ttl_duration std c) ≡ true
    pub default_positive : ltb_ℤ (pos 0) (default_ttl_duration std c) ≡ true
    pub default_in_max : leb_ℤ (default_ttl_duration std c) (max_ttl_duration std c) ≡ true
    pub presets_in_max :
        All
          (λ t.
            (d : ℤ) × (std.parse_duration t ≡ some d)
            × (ltb_ℤ (pos 0) d ≡ true)
            × (leb_ℤ d (max_ttl_duration std c) ≡ true))
          c.allowed_ttls

  allowed_in_max :
      (max_ttl : ℤ) (ts : List String)
      → check_allowed std urls max_ttl ts ≡ none
      → All
          (λ t.
            (d : ℤ) × (std.parse_duration t ≡ some d)
            × (ltb_ℤ (pos 0) d ≡ true)
            × (leb_ℤ d max_ttl ≡ true))
          ts
  unfolding check_allowed
  allowed_in_max max_ttl [] h = tt
  allowed_in_max max_ttl (t ∷ ts) h = elim (Option-cases (std.parse_duration t)) [
    | inl e ↦ absurd (ground arith)
    | inr (d, e) ↦ ((d, e, ground arith, ground arith), allowed_in_max max_ttl ts (ground arith))
  ]

  pub check_lifetimes_lem : (c : SecretsConfig) → check_lifetimes std urls c ≡ none → HasLifetimes c
  unfolding check_lifetimes parse_required_duration and_then unless max_ttl_duration
      default_ttl_duration must_dur
  check_lifetimes_lem c h = elim (Option-cases (std.parse_duration c.max_ttl)) [
    | inl e ↦ absurd (ground arith)
    | inr (m, e) ↦ elim (Option-cases (std.parse_duration c.default_ttl)) [
      | inl e' ↦ absurd (ground arith)
      | inr (d, e') ↦
          let max : max_ttl_duration std c ≡ m =
            ground (arith, eq_iff c.max_ttl "", std.parse_duration-empty) in
          let def : default_ttl_duration std c ≡ d =
            ground (arith, eq_iff c.default_ttl "", std.parse_duration-empty) in
          record {
            max_positive = ground (arith, max);
            default_positive = ground (arith, def);
            default_in_max = ground (arith, max, def);
            presets_in_max =
                subst
                  (λ top.
                    All
                      (λ t.
                        (x : ℤ) × (std.parse_duration t ≡ some x)
                        × (ltb_ℤ (pos 0) x ≡ true)
                        × (leb_ℤ x top ≡ true))
                      c.allowed_ttls)
                  (sym max) (allowed_in_max m c.allowed_ttls (ground arith));
          }
    ]
  ]
