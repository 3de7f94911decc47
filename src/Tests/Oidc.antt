-- ===== src/Tests/Oidc.antt =====
-- Tests of the sign-in through a provider.
use secret_share.Users.Store.{key, get_user}
use secret_share.User.{role_admin, normalize_email, User}
use secret_share.Tests.Fixtures.{root_user, one_user, plain}
use secret_share.Prelude.{
  String, ◌||◌, ◌≡◌, [], true, refl, some, none, ◌⊎◌, ◌∷◌, Option, if◌then◌else◌,
}
use secret_share.Oidc.Provision.{SsoEnv, provision_oidc}
use secret_share.Oidc.Grants.{provision_oidc_lem}
use secret_share.Oidc.Allow.{ClaimValue, IdClaims, items, role_for, OidcConfig}
use secret_share.Bolt.Memory.{memory}
use secret_share.Bolt.{json, raw_at}

abbrev provider : OidcConfig
provider = record {
  require_email_verified = true;
  allowed_domains = [];
  allowed_emails = [];
  groups_claim = "groups";
  admin_emails = [];
  admin_groups = "ops" ∷ [];
  user_groups = "staff" ∷ [];
  default_role = "none";
}

abbrev no_host : String → Option String
no_host email = none

abbrev groups_claims : String → Option ClaimValue
groups_claims name = some (items (some "staff" ∷ none ∷ []))

abbrev token : IdClaims
token = record {
  subject = "1";
  email = "root@x";
  email_verified = true;
  full_name = "Root";
  raw = some groups_claims;
}

abbrev sso_env : SsoEnv
sso_env = record { login = 70; now = 71; save = none }

root_is_found : get_user plain memory "root@x" one_user ≡ (some root_user, none)
unfolding get_user key memory one_user
root_is_found = refl

provision_oidc_lem_example :
    let r = provision_oidc plain no_host provider memory sso_env token ("staff" ∷ []) one_user in
    let g = role_for plain no_host provider token ("staff" ∷ []) in
    ((r.0 ≡ none) × ((j : String) → raw_at memory r.1 j ≡ raw_at memory one_user j))
    ⊎ ((q : User) × (r.0 ≡ some q)
        × (root_user.enabled ≡ true)
        × (g.granted || g.pinned || root_user.pinned ≡ true)
        × (q.role ≡ (if g.pinned || root_user.pinned then role_admin else g.role))
        × (raw_at memory r.1 (normalize_email plain "root@x") ≡ some (json q)))
provision_oidc_lem_example =
    provision_oidc_lem plain no_host provider memory sso_env token ("staff" ∷ []) one_user root_user
      root_is_found
