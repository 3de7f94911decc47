-- ===== src/Login/Handler.antt =====
-- PasswordLogin of internal/domain/auth/handler.go, with verifySecondFactor of
-- internal/domain/auth/2fa.go.
use secret_share.Users.Store.{upsert, get_user, UserStore}
use secret_share.User.{check_password, consume_recovery_code, User, Bcrypt, normalize_email}
use secret_share.Std.{Std}
use secret_share.Session.{Claims, Codec, sign}
use secret_share.Secret.{Time}
use secret_share.Prelude.{
  none, true, ◌==◌, Bool, [], some, String, ◌&&◌, false, Option, ℕ, not, ◌∷◌, if◌then◌else◌,
}
use secret_share.Http.{
  parser_error, text, bad_request, ok, Reply, unauthorized, error, flag, internal, forbidden,
}
use secret_share.Bolt.{Engine, Error}

-- The calls of the second factor: secretbox.Open under the key of the server (none for an error),
-- and totp.Validate at the time of the request.
pub record Totp : Type 0 where
  pub open_box : String → Option String
  pub validate : String → String → Bool

pub record LoginBody : Type 0 where
  pub email : String
  pub password : String
  pub code : String

-- The settings of the login, the clock, and the commits of its writes: of a used recovery code and
-- of the last login. `expiry` is the Unix time at which the session ends.
pub record LoginEnv : Type 0 where
  pub enabled : Bool
  pub local_login : Bool
  pub session_secret : String
  pub login : Time
  pub expiry : ℕ
  pub use_code : Option Error
  pub save : Option Error

module _ (std : Std) (E : Engine) (codec : Codec) (bcrypt : Bcrypt) (totp : Totp) where
  -- The users, and the session cookie that the response sets.
  pub record LoginState : Type 0 where
    pub users : UserStore std E
    pub cookie : Option String

  abbrev totp_accepts : User → String → Bool
  totp_accepts p code =
      if p.totp_secret_enc == "" then false else elim (totp.open_box p.totp_secret_enc) [
        | none ↦ false
        | some secret ↦ totp.validate code secret
      ]

  -- A use of a recovery code changes the user, and its write may fail.
  unfoldable pub verify_second_factor :
      Option Error → Time → User → String → UserStore std E → Bool × User × UserStore std E
  verify_second_factor use_code now p code s =
      if totp_accepts p code then (true, p, s) else elim (consume_recovery_code std bcrypt p code) [
        | none ↦ (false, p, s)
        | some p' ↦ let (p'', _, s') = upsert std E use_code now p' s in (true, p'', s')
      ]

  -- The session of a user that has passed.
  unfoldable pub mint_session : LoginEnv → User → UserStore std E → Reply LoginState
  mint_session env p s =
      let claims : Claims = record {
        subject = p.email;
        email = p.email;
        name = p.name;
        groups = [];
        role = p.role;
        exp = 0;
      } in
      elim (sign codec claims env.session_secret env.expiry) [
        | none ↦ internal (record { users = s; cookie = none })
        | some cookie ↦
            let (_, _, s') =
              upsert std E env.save env.login (record p { last_login_at = some env.login }) s in
            ok (("ok", flag true) ∷ []) (record { users = s'; cookie = some cookie })
      ]

  -- After a correct password.
  unfoldable pub second_step : LoginEnv → LoginBody → User → UserStore std E → Reply LoginState
  second_step env body p s =
      if p.totp_enabled
      then (let code = std.trim_space body.code in
          if code == ""
          then ok (("mfa_required", flag true) ∷ []) (record { users = s; cookie = none })
          else (let (good, p', s') = verify_second_factor env.use_code env.login p code s in
              if good
              then mint_session env p' s'
              else unauthorized "invalid authentication code"
                  (record { users = s'; cookie = none })))
      else mint_session env p s

  unfoldable pub check_login :
      LoginEnv → LoginBody → Option User → UserStore std E → Reply LoginState
  check_login env body none s =
      unauthorized "invalid email or password" (record { users = s; cookie = none })
  check_login env body (some p) s =
      if p.enabled && not (p.password_hash == "") && check_password bcrypt p body.password
      then second_step env body p s
      else unauthorized "invalid email or password" (record { users = s; cookie = none })

  -- `body` is none where it does not parse.
  unfoldable pub password_login : LoginEnv → Option LoginBody → UserStore std E → Reply LoginState
  password_login env body s =
      let start : LoginState = record { users = s; cookie = none } in
      if not env.enabled
      then error 400 (text "auth is disabled") start
      else if not env.local_login
      then forbidden "password login is disabled; sign in with SSO" start
      else elim body [
        | none ↦ bad_request parser_error start
        | some b ↦
            let (found, err) = get_user std E (normalize_email std b.email) s in
            elim err [ some e ↦ internal start | none ↦ check_login env b found s ]
      ]
