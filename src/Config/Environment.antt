-- ===== src/Config/Environment.antt =====
-- The overrides of the sign-in providers from the environment, internal/core/env/config.go.
use secret_share.Std.{Std}
use secret_share.Prelude.{
  some, none, Option, map, Bool, ◌∷◌, List, ◌==◌, String, [], if◌then◌else◌, ◌<>◌,
}
use secret_share.Config.{OidcProviderConfig}

-- os.LookupEnv, and the calls of strings and strconv.
pub record EnvCalls : Type 0 where
  pub lookup_env : String → Option String
  pub to_upper : String → String
  pub split_comma : String → List String
  pub parse_bool : String → Option Bool

module _ (std : Std) (calls : EnvCalls) where
  -- The loop of splitCommaList over the parts.
  unfoldable pub trim_parts : List String → List String
  trim_parts [] = []
  trim_parts (p ∷ ps) =
      let t = std.trim_space p in let rest = trim_parts ps in if t == "" then rest else t ∷ rest

  unfoldable pub split_comma_list : String → List String
  split_comma_list s = if std.trim_space s == "" then [] else trim_parts (calls.split_comma s)

  -- What a variable is set to, where that is not blank.
  abbrev pub set_value : String → Option String
  set_value key = elim (calls.lookup_env key) [
    | none ↦ none
    | some v ↦ if std.trim_space v == "" then none else some v
  ]

  unfoldable pub env_str : String → String → String
  env_str cur key = elim (set_value key) [ none ↦ cur | some v ↦ v ]

  unfoldable pub env_list : List String → String → List String
  env_list cur key = elim (set_value key) [ none ↦ cur | some v ↦ split_comma_list v ]

  unfoldable pub env_infix : String → String
  env_infix id = calls.to_upper (std.replace_all (std.trim_space id) "-" "_")

  -- The variable of the verified-email requirement counts where it parses.
  unfoldable pub env_bool : Option Bool → String → Option Bool
  env_bool cur key = elim (calls.lookup_env key) [
    | none ↦ cur
    | some raw ↦ elim (calls.parse_bool (std.trim_space raw)) [ none ↦ cur | some b ↦ some b ]
  ]

  unfoldable pub apply_oidc_env_overrides : OidcProviderConfig → OidcProviderConfig
  apply_oidc_env_overrides p =
      let pfx = "SHARE_AUTH_OIDC_" <> env_infix p.id <> "_" in
      record {
        id = p.id;
        label = env_str p.label (pfx <> "LABEL");
        issuer = env_str p.issuer (pfx <> "ISSUER");
        client_id = env_str p.client_id (pfx <> "CLIENT_ID");
        client_secret = env_str p.client_secret (pfx <> "CLIENT_SECRET");
        redirect_url = env_str p.redirect_url (pfx <> "REDIRECT_URL");
        scopes = env_list p.scopes (pfx <> "SCOPES");
        require_email_verified =
            env_bool p.require_email_verified (pfx <> "REQUIRE_EMAIL_VERIFIED");
        allowed_domains = env_list p.allowed_domains (pfx <> "ALLOWED_DOMAINS");
        allowed_emails = env_list p.allowed_emails (pfx <> "ALLOWED_EMAILS");
        groups_claim = env_str p.groups_claim (pfx <> "GROUPS_CLAIM");
        admin_emails = env_list p.admin_emails (pfx <> "ADMIN_EMAILS");
        admin_groups = env_list p.admin_groups (pfx <> "ADMIN_GROUPS");
        user_groups = env_list p.user_groups (pfx <> "USER_GROUPS");
        default_role = env_str p.default_role (pfx <> "DEFAULT_ROLE");
      }

  -- A provider that stands in the environment alone.
  abbrev blank_provider : String → OidcProviderConfig
  blank_provider id = record {
    id = id;
    label = "";
    issuer = "";
    client_id = "";
    client_secret = "";
    redirect_url = "";
    scopes = [];
    require_email_verified = none;
    allowed_domains = [];
    allowed_emails = [];
    groups_claim = "";
    admin_emails = [];
    admin_groups = [];
    user_groups = [];
    default_role = "";
  }

  abbrev providers_of : List String → List OidcProviderConfig → List OidcProviderConfig
  providers_of [] file = map apply_oidc_env_overrides file
  providers_of (id ∷ ids) file = map (λ i. apply_oidc_env_overrides (blank_provider i)) (id ∷ ids)

  abbrev or_blank : Option String → String
  or_blank none = ""
  or_blank (some s) = s

  -- The providers of the file, or those that the environment names.
  unfoldable pub load_providers : List OidcProviderConfig → List OidcProviderConfig
  load_providers file =
      providers_of (split_comma_list (or_blank (calls.lookup_env "SHARE_AUTH_OIDC_PROVIDERS"))) file
