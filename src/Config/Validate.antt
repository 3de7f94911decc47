-- ===== src/Config/Validate.antt =====
-- Config.Validate and validateAuth of internal/core/env/config.go. What an error leaves of the
-- settings is not kept: the program then ends.
use secret_share.Users.Fields.{bad_length}
use secret_share.Tls.{validate_config}
use secret_share.Std.{Std}
use secret_share.Prelude.{
  String, ◌∷◌, ◌*◌, Option, some, none, len, true, false, List, [], ◌&&◌, ◌||◌, ◌==◌, not, Bool,
  leb_ℤ, ltb_ℤ, pos, ℤ, if◌then◌else◌, ltb,
}
use secret_share.Http.{text, int}
use secret_share.Failure.{Failure, passed, unless, errorf, failure_of, and_then, failing, Checked}
use secret_share.Config.Providers.{UrlCalls, validate_providers}
use secret_share.Config.{
  SecretsConfig, FilesConfig, OidcProviderConfig, BootstrapAdminConfig, AuthConfig, MetricsConfig,
  Config,
}

abbrev pub has_no_provider : List OidcProviderConfig → Bool
has_no_provider [] = true
has_no_provider (p ∷ ps) = false

module _ (std : Std) (urls : UrlCalls) where
  -- `d, err := time.ParseDuration(s); err != nil || d <= 0` is the failure.
  abbrev pub positive_duration : String → Option ℤ
  positive_duration s = elim (std.parse_duration s) [
    | none ↦ none
    | some d ↦ if leb_ℤ d (pos 0) then none else some d
  ]

  -- A setting that may be left out.
  unfoldable pub check_optional_duration : String → String → Option Failure
  check_optional_duration format s =
      if s == ""
      then none
      else elim (positive_duration s) [ none ↦ some (errorf format (text s ∷ [])) | some d ↦ none ]

  unfoldable pub parse_required_duration : String → String → Checked ℤ
  parse_required_duration field raw = elim (positive_duration raw) [
    | none ↦
        failing (
          errorf "%s %q invalid: want a positive Go duration like 24h" (text field ∷ text raw ∷ []))
    | some d ↦ passed d
  ]

  -- The loop over the preset lifetimes.
  unfoldable pub check_allowed : ℤ → List String → Option Failure
  check_allowed max_ttl [] = none
  check_allowed max_ttl (t ∷ ts) =
      let rest = check_allowed max_ttl ts in
      elim (positive_duration t) [
        | none ↦ some (
            errorf "secrets.allowed_ttls entry %q invalid: want a positive Go duration like 1h"
              (text t ∷ []))
        | some d ↦
            if ltb_ℤ max_ttl d
            then some (
                errorf "secrets.allowed_ttls entry %q exceeds secrets.max_ttl (%s)"
                  (text t ∷ int max_ttl ∷ []))
            else rest
      ]

  unfoldable pub check_lifetimes : SecretsConfig → Option Failure
  check_lifetimes c = failure_of (
      and_then (parse_required_duration "secrets.max_ttl" c.max_ttl) (λ max_ttl.
        and_then (parse_required_duration "secrets.default_ttl" c.default_ttl) (λ def_ttl.
          if ltb_ℤ max_ttl def_ttl
          then failing (
              errorf "secrets.default_ttl (%s) must not exceed secrets.max_ttl (%s)"
                (int def_ttl ∷ int max_ttl ∷ []))
          else unless (check_allowed max_ttl c.allowed_ttls) (passed tt))))

  unfoldable pub normalize_limits : SecretsConfig → SecretsConfig
  normalize_limits c = record c {
    max_size_bytes = if leb_ℤ c.max_size_bytes (pos 0) then pos 65536 else c.max_size_bytes;
    max_views = if ltb_ℤ c.max_views (pos 1) then pos 1 else c.max_views;
  }

  -- The gate in its normal form.
  unfoldable pub check_gate : String → Checked String
  check_gate gate =
      let g = std.to_lower (std.trim_space gate) in
      if g == "" || g == "create"
      then passed "create"
      else if g == "all"
      then passed "all"
      else failing (errorf "auth.gate %q invalid: want \"create\" or \"all\"" (text gate ∷ []))

  unfoldable pub check_session_secret : String → Option Failure
  check_session_secret secret =
      if ltb (len secret) 32
      then some
          (errorf "auth.session_secret must be at least 32 characters when auth is enabled" [])
      else none

  unfoldable pub check_bootstrap : BootstrapAdminConfig → Option Failure
  check_bootstrap b =
      if b.password == ""
      then none
      else if bad_length b.password
      then some (
          errorf "auth.bootstrap_admin.password must be 8-72 bytes (got %d)"
            (int (pos (len b.password)) ∷ []))
      else if b.email == ""
      then some (errorf "auth.bootstrap_admin.password set without auth.bootstrap_admin.email" [])
      else none

  unfoldable pub check_sign_in : AuthConfig → Option Failure
  check_sign_in a =
      if has_no_provider a.oidc && not a.local_login
      then some (
          errorf
            "auth.enabled is true but local_login is false and no OIDC providers are configured: no way to sign in"
            [])
      else none

  -- The checks where the login is on.
  unfoldable pub validate_enabled_auth : AuthConfig → Checked AuthConfig
  validate_enabled_auth a = and_then (check_gate a.gate) (λ gate.
      unless (check_session_secret a.session_secret) (
        unless
          (check_optional_duration
            "auth.session_ttl %q invalid: want a positive Go duration like 12h" a.session_ttl)
          (unless (check_bootstrap a.bootstrap_admin) (
            and_then (validate_providers std urls a.oidc []) (λ ps.
              let a' : AuthConfig = record a { gate = gate; oidc = ps } in
              unless (check_sign_in a') (passed a'))))))

  unfoldable pub validate_auth : AuthConfig → Checked AuthConfig
  validate_auth a = if not a.enabled then passed a else validate_enabled_auth a

  unfoldable pub check_metrics : MetricsConfig → Option Failure
  check_metrics m =
      if m.enabled && std.trim_space m.addr == ""
      then some (errorf "metrics.addr must be set when metrics.enabled is true" [])
      else none

  unfoldable pub normalize_files : FilesConfig → FilesConfig
  normalize_files f = record f {
    max_size_bytes =
        if leb_ℤ f.max_size_bytes (pos 0) then pos (5 * 1024 * 1024) else f.max_size_bytes;
  }

  unfoldable pub validate : Config → Checked Config
  validate c = unless (validate_config std c.server.tls) (
      unless
        (check_optional_duration
          "database.sweep_interval %q invalid: want a positive Go duration like 1m"
          c.database.sweep_interval)
        (let secrets = normalize_limits c.secrets in
          unless (check_lifetimes secrets) (
            and_then (validate_auth c.auth) (λ auth. unless (check_metrics c.metrics) (
              passed
                (record c { secrets = secrets; auth = auth; files = normalize_files c.files }))))))
