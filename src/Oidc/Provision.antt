-- ===== src/Oidc/Provision.antt =====
-- The user that an OIDC sign-in creates or updates, provisionOIDC of internal/domain/auth/oidc.go.
use secret_share.Oidc.Allow.{OidcConfig, Grant, role_for, IdClaims}
use secret_share.Users.Store.{UserStore, get_user, upsert}
use secret_share.User.{User, Role, source_oidc, role_admin, normalize_email}
use secret_share.Std.{Std}
use secret_share.Secret.{Time}
use secret_share.Prelude.{
  not, ◌==◌, [], Option, ◌&&◌, ◌||◌, true, some, List, String, false, Bool, none, if◌then◌else◌,
}
use secret_share.Bolt.{Error, Engine}

-- The clock (time.Now(), read for the login and for the write) and the answer of the commit.
pub record SsoEnv : Type 0 where
  pub login : Time
  pub now : Time
  pub save : Option Error

module _ (std : Std) (host_of : String → Option String) (cfg : OidcConfig) (E : Engine) where
  -- The user under an email that is not there yet.
  unfoldable pub fresh_oidc_user : IdClaims → User
  fresh_oidc_user c = record {
    email = normalize_email std c.email;
    name = "";
    role = "";
    source = source_oidc;
    password_hash = "";
    pinned = false;
    enabled = true;
    subject = "";
    totp_enabled = false;
    totp_secret_enc = "";
    recovery_code_hashes = [];
    webauthn_handle = "";
    passkeys = "";
    created_at = 0;
    updated_at = 0;
    last_login_at = none;
  }

  -- The fields that a sign-in sets.
  unfoldable pub signed_in : Time → IdClaims → Role → Bool → User → User
  signed_in login c role pinned_now p = record p {
    source = if p.source == "" then source_oidc else p.source;
    subject = c.subject;
    name = if c.full_name == "" then p.name else c.full_name;
    pinned = if pinned_now then true else p.pinned;
    role = if pinned_now then role_admin else role;
    last_login_at = some login;
  }

  -- The last steps: the write, whose error is answered by no user.
  unfoldable pub write_oidc : SsoEnv → User → UserStore std E → Option User × UserStore std E
  write_oidc env p s =
      let (p', err, s') = upsert std E env.save env.now p s in
      elim err [ some e ↦ (none, s') | none ↦ (some p', s') ]

  -- After the lookup of the email.
  unfoldable pub provision_found :
      SsoEnv → IdClaims → Grant → Option User → UserStore std E → Option User × UserStore std E
  provision_found env c g none s =
      if not g.granted && not g.pinned
      then (none, s)
      else write_oidc env (signed_in env.login c g.role g.pinned (fresh_oidc_user c)) s
  provision_found env c g (some p) s =
      if not p.enabled
      then (none, s)
      else if not g.granted && not (g.pinned || p.pinned)
      then (none, s)
      else write_oidc env (signed_in env.login c g.role (g.pinned || p.pinned) p) s

  -- The user of the sign-in, none where it is denied.
  unfoldable pub provision_oidc :
      SsoEnv → IdClaims → List String → UserStore std E → Option User × UserStore std E
  provision_oidc env c groups s =
      let (found, err) = get_user std E c.email s in
      elim err [
        | some e ↦ (none, s)
        | none ↦ provision_found env c (role_for std host_of cfg c groups) found s
      ]
