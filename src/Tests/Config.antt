-- ===== src/Tests/Config.antt =====
-- Tests of the checks on the settings.
use secret_share.Tls.{
  TlsConfig, tls_enabled, build, TlsCalls, validate_config, AreTotal, is_some,
  build-validate_config,
}
use secret_share.Tests.Fixtures.{with_auth, plain}
use secret_share.Secrets.Handler.{resolve_ttl, settled}
use secret_share.Prelude.{
  false, List, refl, [], ◌≡◌, String, true, ◌∷◌, none, some, Option, leb_ℤ, pos, ltb_ℤ,
}
use secret_share.Oidc.Allow.{match_email}
use secret_share.Http.{text}
use secret_share.Failure.{errorf, unless, failure_of, and_then, passed, failing}
use secret_share.Config.Validate.{
  check_lifetimes, parse_required_duration, check_sign_in, validate, normalize_limits,
  check_optional_duration, normalize_files, check_metrics, check_allowed, validate_auth,
  check_bootstrap, check_gate, validate_enabled_auth, check_session_secret,
}
use secret_share.Config.Valid.{resolve_ttl_in_max, IsValid, validate-IsValid}
use secret_share.Config.Providers.{
  check_client, validate_providers, check_redirect, lower_trim_all, check_id, UrlCalls,
  normalize_lists, validate_fields, matches_id, validate_https_url, validate_oidc_provider,
  check_default_role, check_groups,
}
use secret_share.Config.{
  Config, max_ttl_duration, must_dur, default_ttl_duration, hour, OidcProviderConfig,
}

abbrev urls : UrlCalls
urls = record {
  parse_url = λ s. some ("https", "idp.example");
  has_suffix = λ s suffix. true;
  trim_right_slash = λ s. s;
}

abbrev provider : String → OidcProviderConfig
provider id = record {
  id = id;
  label = "";
  issuer = "https://idp.example";
  client_id = "client";
  client_secret = "secret";
  redirect_url = "https://share.example/api/auth/oidc/idp/callback";
  scopes = [];
  require_email_verified = none;
  allowed_domains = [];
  allowed_emails = [];
  groups_claim = "";
  admin_emails = "" ∷ "root@x" ∷ [];
  admin_groups = [];
  user_groups = [];
  default_role = "";
}

abbrev no_tls : TlsConfig
no_tls = record {
  mode = "";
  cert = "";
  key = "";
  fqdn = "";
  alg = "";
  acme = record { email = ""; cache_dir = ""; http_addr = ""; hosts = [] };
}

abbrev long_secret : String
long_secret = "0123456789abcdef0123456789abcdef"

abbrev raw_config : List OidcProviderConfig → Config
raw_config providers = record {
  server = record { addr = ":3000"; trusted_proxies = []; behind_tls_proxy = false; tls = no_tls };
  database = record { path = "db"; sweep_interval = "" };
  secrets = record {
    max_size_bytes = pos 0;
    max_ttl = "1h";
    default_ttl = "1h";
    allowed_ttls = "1h" ∷ [];
    max_views = pos 0;
  };
  auth = record with_auth {
    gate = "";
    session_secret = long_secret;
    local_login = false;
    oidc = providers;
  };
  logging = record { level = "info"; format = "json"; output = "stdout"; color = false };
  metrics = record { enabled = false; addr = "" };
  files = record { enabled = true; max_size_bytes = pos 0 };
}

abbrev checked_config : Config
checked_config =
    let c = raw_config [] in
    record c {
      secrets = record c.secrets { max_size_bytes = pos 65536; max_views = pos 1 };
      files = record c.files { max_size_bytes = pos 5242880 };
      auth = record c.auth {
        gate = "create";
        oidc =
            record (provider "idp") {
              label = "idp";
              scopes = "openid" ∷ "email" ∷ "profile" ∷ [];
              admin_emails = "root@x" ∷ [];
            }
            ∷ [];
      };
    }

config_passes : validate plain urls (raw_config (provider "idp" ∷ [])) ≡ passed checked_config
unfolding validate validate_config check_optional_duration check_lifetimes parse_required_duration
    check_allowed normalize_limits validate_auth validate_enabled_auth check_gate
    check_session_secret check_bootstrap check_sign_in check_metrics normalize_files
    validate_providers validate_oidc_provider validate_fields validate_https_url check_id matches_id
    match_email check_client check_redirect check_groups check_default_role normalize_lists
    lower_trim_all and_then unless
config_passes = refl

-- The second provider has the id of the first.
twice_is_refused :
    validate plain urls (raw_config (provider "idp" ∷ provider "idp" ∷ []))
    ≡ failing (errorf "auth.oidc provider id %q is duplicated" (text "idp" ∷ []))
unfolding validate validate_config check_optional_duration check_lifetimes parse_required_duration
    check_allowed normalize_limits validate_auth validate_enabled_auth check_gate
    check_session_secret check_bootstrap check_sign_in check_metrics normalize_files
    validate_providers validate_oidc_provider validate_fields validate_https_url check_id matches_id
    match_email check_client check_redirect check_groups check_default_role normalize_lists
    lower_trim_all and_then unless
twice_is_refused = refl

validate-IsValid_example : IsValid plain urls checked_config
validate-IsValid_example =
    validate-IsValid plain urls (raw_config (provider "idp" ∷ [])) checked_config config_passes

default_is_taken : resolve_ttl plain checked_config.secrets "" ≡ settled (pos hour)
unfolding resolve_ttl default_ttl_duration must_dur
default_is_taken = refl

resolve_ttl_in_max_example :
    (ltb_ℤ (pos 0) (pos hour) ≡ true)
    × (leb_ℤ (pos hour) (max_ttl_duration plain checked_config.secrets) ≡ true)
resolve_ttl_in_max_example =
    resolve_ttl_in_max plain urls (raw_config (provider "idp" ∷ [])) checked_config "" (pos hour)
      config_passes default_is_taken

-- Certificates are texts.
abbrev text_calls : TlsCalls String
text_calls = record {
  load_pair = λ cert key. some cert;
  self_signed_rsa = λ fqdn. some "rsa";
  self_signed_ed25519 = λ fqdn. some "ed25519";
  autocert = λ mail dir addr hosts. addr;
}

text_calls-AreTotal : AreTotal plain text_calls
text_calls-AreTotal = record {
  pair_loads = λ cert key h. cc;
  rsa_is_made = λ fqdn h. cc;
  ed25519_is_made = λ fqdn h. cc;
}

abbrev self_tls : TlsConfig
self_tls = record no_tls { mode = "self"; fqdn = "share.example"; alg = "ed25519" }

build-validate_config_example :
    (failure_of (build plain text_calls self_tls) ≡ validate_config plain self_tls)
    × ((o : Option String)
        → build plain text_calls self_tls ≡ passed o
        → is_some plain text_calls o ≡ tls_enabled self_tls)
    × (build plain text_calls self_tls ≡ passed (text_calls.self_signed_ed25519 "share.example"))
build-validate_config_example = build-validate_config plain text_calls self_tls text_calls-AreTotal
