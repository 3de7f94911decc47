-- ===== src/Oidc/Callback.antt =====
-- The start and the callback of a sign-in, OIDCStart and OIDCCallback of
-- internal/domain/auth/oidc.go.
use secret_share.Users.Store.{UserStore}
use secret_share.User.{User}
use secret_share.Std.{Std}
use secret_share.Session.{Codec, sign, Claims}
use secret_share.Prelude.{
  List, ◌==◌, some, ◌||◌, ℕ, not, none, String, Option, ◌≡◌, if◌then◌else◌, ◌<>◌,
}
use secret_share.Oidc.State.{StateCodec}
use secret_share.Oidc.Registry.{Registry, get_provider}
use secret_share.Oidc.Provision.{provision_oidc, SsoEnv}
use secret_share.Oidc.Flow.{Provider, Draws, authorize, exchange, IsRedeemed, IdpCalls}
use secret_share.Oidc.Allow.{admit, IdClaims}
use secret_share.Http.{not_found, Reply, redirect}
use secret_share.Failure.{passed, failing}
use secret_share.Bolt.{Engine}

-- A request to the callback: the provider of its path, its query, its state cookie, and the time at
-- which that is read, in Unix seconds.
pub record CallbackRequest : Type 0 where
  pub provider : String
  pub idp_error : String
  pub state : String
  pub code : String
  pub state_cookie : String
  pub seconds : ℕ

-- The settings of the sign-in, what Authorize draws, the ends of the session and of the state cookie
-- in Unix seconds, and the clock and the commit of the provisioning.
pub record CallbackEnv : Type 0 where
  pub registry : Option Registry
  pub session_secret : String
  pub draws : Draws
  pub state_expiry : ℕ
  pub expiry : ℕ
  pub sso : SsoEnv

-- The response of a redirect.
abbrev pub redirect_to : {S : Type 0} → String → S → Reply S
redirect_to to s = (none, record { status = 302; body = redirect to }, s)

-- ssoFail.
unfoldable pub sso_fail : {S : Type 0} → String → S → Reply S
sso_fail code s = redirect_to ("/signin?err=" <> code) s

unfoldable pub state_cookie_path : String → String
state_cookie_path id = "/api/auth/oidc/" <> id <> "/callback"

module _ (std : Std) (host_of : String → Option String) (E : Engine) (codec : Codec)
    (states : StateCodec) (idp : IdpCalls) where
  -- The users, and the cookies that the response sets (none where it sets none): the session, and
  -- the state with its path, blank where it is cleared.
  pub record SsoState : Type 0 where
    pub users : UserStore std E
    pub cookie : Option String
    pub state_cookie : Option (String × String)

  unfoldable pub oidc_start : CallbackEnv → String → SsoState → Reply SsoState
  oidc_start env id s = elim (get_provider env.registry id) [
    | none ↦ not_found "unknown sso provider" s
    | some p ↦
        let (to, cookie) = authorize states idp p env.draws env.session_secret env.state_expiry in
        redirect_to to (record s { state_cookie = some (cookie, state_cookie_path p.id) })
  ]

  -- The session of a provisioned user.
  unfoldable pub mint_sso : CallbackEnv → IdClaims → List String → User → SsoState → Reply SsoState
  mint_sso env c groups p s =
      let claims : Claims = record {
        subject = c.subject;
        email = c.email;
        name = c.full_name;
        groups = groups;
        role = p.role;
        exp = 0;
      } in
      elim (sign codec claims env.session_secret env.expiry) [
        | none ↦ sso_fail "sso_internal" s
        | some cookie ↦ redirect_to "/signin" (record s { cookie = some cookie })
      ]

  -- After the exchange.
  unfoldable pub sign_in_claims : CallbackEnv → Provider → IdClaims → SsoState → Reply SsoState
  sign_in_claims env p c s = elim (admit std host_of p.rules c) [
    | none ↦ sso_fail "sso_access_denied" s
    | some groups ↦
        let (u, users) = provision_oidc std host_of p.rules E env.sso c groups s.users in
        elim u [
          | none ↦ sso_fail "sso_access_denied" (record s { users = users })
          | some user ↦ mint_sso env c groups user (record s { users = users })
        ]
  ]

  unfoldable pub callback_of : CallbackEnv → CallbackRequest → Provider → SsoState → Reply SsoState
  callback_of env r p s =
      if not (r.idp_error == "")
      then sso_fail "sso_idp_error" s
      else if r.state == "" || r.code == ""
      then sso_fail "sso_bad_callback" s
      else if r.state_cookie == ""
      then sso_fail "sso_state_missing" s
      else elim (exchange states idp p r.seconds env.session_secret r.state r.code r.state_cookie) [
        | failing e ↦ sso_fail "sso_token_invalid" s
        | passed c ↦ sign_in_claims env p c s
      ]

  -- The state cookie is cleared when the handler returns, whatever it answers.
  unfoldable pub oidc_callback : CallbackEnv → CallbackRequest → SsoState → Reply SsoState
  oidc_callback env r s = elim (get_provider env.registry r.provider) [
    | none ↦ not_found "unknown sso provider" s
    | some p ↦
        let (err, resp, s') = callback_of env r p s in
        (err, resp, record s' { state_cookie = some ("", state_cookie_path p.id) })
  ]

  -- What a callback that signs somebody in has shown.
  pub record IsSignedIn (env : CallbackEnv) (r : CallbackRequest) (s : SsoState) (cookie : String)
      : Type 0 where
    pub provider : Provider
    pub configured : get_provider env.registry r.provider ≡ some provider
    pub claims : IdClaims
    pub redeemed :
        IsRedeemed states idp provider r.seconds env.session_secret r.state r.code r.state_cookie
          claims
    pub groups : List String
    pub admitted : admit std host_of provider.rules claims ≡ some groups
    pub user : User
    pub provisioned :
        (provision_oidc std host_of provider.rules E env.sso claims groups s.users).0 ≡ some user
    pub session :
        sign codec
          (record {
            subject = claims.subject;
            email = claims.email;
            name = claims.full_name;
            groups = groups;
            role = user.role;
            exp = 0;
          })
          env.session_secret
          env.expiry
        ≡ some cookie
