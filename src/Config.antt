-- ===== src/Config.antt =====
-- The settings (internal/core/env/config.go), and their durations.
pub mod Providers
pub mod Environment
pub mod Validate
pub mod Lifetimes
pub mod SignIn
pub mod Valid
use secret_share.Tls.{TlsConfig}
use secret_share.Std.{Std}
use secret_share.Prelude.{
  Option, none, String, List, some, ◌==◌, ℕ, ◌*◌, Bool, pos, ℤ, leb_ℤ, if◌then◌else◌,
}

-- Go's time.Duration constants, in nanoseconds.
abbrev pub second : ℕ
second = 1000000000

abbrev pub hour : ℕ
hour = 3600 * second

pub record SecretsConfig : Type 0 where
  pub max_size_bytes : ℤ
  pub max_ttl : String
  pub default_ttl : String
  pub allowed_ttls : List String
  pub max_views : ℤ

pub record FilesConfig : Type 0 where
  pub enabled : Bool
  pub max_size_bytes : ℤ

pub record DatabaseConfig : Type 0 where
  pub path : String
  pub sweep_interval : String

pub record MetricsConfig : Type 0 where
  pub enabled : Bool
  pub addr : String

pub record LoggingConfig : Type 0 where
  pub level : String
  pub format : String
  pub output : String
  pub color : Bool

pub record BootstrapAdminConfig : Type 0 where
  pub email : String
  pub password : String

-- The verified-email requirement is none where it is not set.
pub record OidcProviderConfig : Type 0 where
  pub id : String
  pub label : String
  pub issuer : String
  pub client_id : String
  pub client_secret : String
  pub redirect_url : String
  pub scopes : List String
  pub require_email_verified : Option Bool
  pub allowed_domains : List String
  pub allowed_emails : List String
  pub groups_claim : String
  pub admin_emails : List String
  pub admin_groups : List String
  pub user_groups : List String
  pub default_role : String

pub record AuthConfig : Type 0 where
  pub enabled : Bool
  pub gate : String
  pub session_secret : String
  pub session_ttl : String
  pub local_login : Bool
  pub bootstrap_admin : BootstrapAdminConfig
  pub oidc : List OidcProviderConfig

-- The code's ServerConfig; another record has that name here.
pub record ListenConfig : Type 0 where
  pub addr : String
  pub trusted_proxies : List String
  pub behind_tls_proxy : Bool
  pub tls : TlsConfig

pub record Config : Type 0 where
  pub server : ListenConfig
  pub database : DatabaseConfig
  pub secrets : SecretsConfig
  pub auth : AuthConfig
  pub logging : LoggingConfig
  pub metrics : MetricsConfig
  pub files : FilesConfig

module _ (std : Std) where
  open std use {parse_duration}

  unfoldable pub must_dur : String → ℤ → ℤ
  must_dur s def =
      if s == ""
      then def
      else elim (parse_duration s) [ none ↦ def | some d ↦ if leb_ℤ d (pos 0) then def else d ]

  unfoldable pub max_ttl_duration : SecretsConfig → ℤ
  unfolding must_dur
  max_ttl_duration c = must_dur c.max_ttl (pos (168 * hour))

  unfoldable pub default_ttl_duration : SecretsConfig → ℤ
  unfolding must_dur
  default_ttl_duration c = must_dur c.default_ttl (pos (24 * hour))

  unfoldable pub sweep_interval_duration : DatabaseConfig → ℤ
  unfolding must_dur
  sweep_interval_duration c = must_dur c.sweep_interval (pos (60 * second))

  unfoldable pub session_ttl_duration : AuthConfig → ℤ
  unfolding must_dur
  session_ttl_duration c = must_dur c.session_ttl (pos (12 * hour))
