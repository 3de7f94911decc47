-- ===== src/Server/SignedIn.antt =====
-- A password login (internal/domain/auth/handler.go), the cookie that it sets
-- (internal/core/session/session.go), and the gate that reads it (internal/server/middleware.go).
use secret_share.Secrets.Once.{stored}
use secret_share.Session.RoundTrip.{verify-sign}
use secret_share.Server.World.{Handler, Caller, World}
use secret_share.Server.Middleware.{verify_session, with_session}
use secret_share.Login.Recovery.{consume_recovery_code_lem}
use secret_share.Http.{unauthorized}
use secret_share.Config.{AuthConfig}
use secret_share.Users.Store.{read_user, get_user, UserStore}
use secret_share.Users.Laws.{upsert_keeps, get_user_lem}
use secret_share.User.{Bcrypt, User, consume_recovery_code, normalize_email}
use secret_share.Std.{Std}
use secret_share.Session.{from_ctx, Codec, Claims, sign}
use secret_share.Secret.{Time}
use secret_share.Prelude.{
  none, not, ◌&&◌, false, ◌==◌, ltb, if◌then◌else◌, Bool-cases, ap, ◌∙◌, Option, some, [], refl,
  inl, ◌≡◌, String, arith, inr, Option-cases,
}
use secret_share.Login.Handler.{
  LoginBody, second_step, check_login, password_login, verify_second_factor, Totp, mint_session,
  LoginEnv,
}
use secret_share.Bolt.{raw_at, json, Error, Engine}

module _ (std : Std) (E : Engine) (codec : Codec) (bcrypt : Bcrypt) (totp : Totp) where
  second_factor_email :
      (use_code : Option Error) (now : Time) (p : User) (code : String) (s : UserStore std E)
      → normalize_email std
          (verify_second_factor std E codec bcrypt totp use_code now p code s).1.email
        ≡ normalize_email std p.email
  unfolding verify_second_factor
  second_factor_email use_code now p code s =
      elim (Option-cases (consume_recovery_code std bcrypt p code)) [
        | inl unused ↦ ground arith
        | inr (q, used) ↦
            let mail : q.email ≡ p.email =
              ap (λ u. u.email) (consume_recovery_code_lem bcrypt std p q code used).0 in
            ground (arith, (upsert_keeps std E use_code now q s).0, ap (normalize_email std) mail)
      ]

  -- A cookie that the login signed, for a user with this email, until this time.
  abbrev IsSigned : LoginEnv → User → String → Type 0
  IsSigned env p cookie =
      (c : Claims) × (normalize_email std c.email ≡ normalize_email std p.email)
      × (sign codec c env.session_secret env.expiry ≡ some cookie)

  mint_session-IsSigned :
      (env : LoginEnv) (p : User) (s : UserStore std E) (cookie : String)
      → (mint_session std E codec bcrypt totp env p s).2.cookie ≡ some cookie
      → IsSigned env p cookie
  unfolding mint_session
  mint_session-IsSigned env p s cookie h =
      let c : Claims = record {
        subject = p.email;
        email = p.email;
        name = p.name;
        groups = [];
        role = p.role;
        exp = 0;
      } in
      (
        c,
        refl,
        elim (Option-cases (sign codec c env.session_secret env.expiry)) [
          | inl unsigned ↦ absurd (ground arith)
          | inr (value, signed) ↦ ground arith
        ],
      )

  second_step-IsSigned :
      (env : LoginEnv) (body : LoginBody) (p : User) (s : UserStore std E) (cookie : String)
      → (second_step std E codec bcrypt totp env body p s).2.cookie ≡ some cookie
      → IsSigned env p cookie
  unfolding second_step
  second_step-IsSigned env body p s cookie h =
      let code = std.trim_space body.code in
      let r = verify_second_factor std E codec bcrypt totp env.use_code env.login p code s in
      elim (Bool-cases p.totp_enabled) [
        | inr off ↦ mint_session-IsSigned env p s cookie (ground arith)
        | inl on ↦ elim (Bool-cases (code == "")) [
          | inl blank ↦ absurd (ground arith)
          | inr given ↦ elim (Bool-cases r.0) [
            | inr bad ↦ absurd (ground arith)
            | inl good ↦
                let (c, mail, signed) = mint_session-IsSigned env r.1 r.2 cookie (ground arith) in
                (c, mail ∙ second_factor_email env.use_code env.login p code s, signed)
          ]
        ]
      ]

  login-IsSigned :
      (env : LoginEnv) (body : LoginBody) (p : User) (s : UserStore std E) (cookie : String)
      → (get_user std E (normalize_email std body.email) s).0 ≡ some p
      → (password_login std E codec bcrypt totp env (some body) s).2.cookie ≡ some cookie
      → IsSigned env p cookie
  unfolding password_login check_login
  login-IsSigned env body p s cookie there h =
      second_step-IsSigned env body p s cookie (ground arith)

  -- The cookie that a password login sets admits its user. At the gate it is worth the claims that
  -- were signed, under the email of the user that signed in and with the role that the store has
  -- now, as long as the session lasts and an enabled user is stored under that email; afterwards,
  -- and where that user is disabled, the gate answers 401 and changes nothing.
  pub with_session-login :
      (cfg : AuthConfig) (env : LoginEnv) (body : LoginBody) (s : UserStore std E) (p q : User)
      (cookie : String) (caller : Caller) (next : Claims → Handler std E) (w : World std E)
      → (get_user std E (normalize_email std body.email) s).0 ≡ some p
      → (password_login std E codec bcrypt totp env (some body) s).2.cookie ≡ some cookie
      → env.session_secret ≡ cfg.session_secret
      → caller.cookie ≡ cookie
      → (cookie == "") ≡ false
      → raw_at E w.users (normalize_email std p.email) ≡ some (json q)
      → (c : Claims) × (normalize_email std c.email ≡ normalize_email std p.email)
        × (with_session std E codec cfg caller next w ≡ (
            if not (ltb env.expiry caller.seconds) && q.enabled
            then next (record c { role = q.role; exp = env.expiry }) w
            else unauthorized "" w))
  unfolding with_session verify_session from_ctx
  with_session-login cfg env body s p q cookie caller next w there h secret same full stored =
      let (c, mail, signed) = login-IsSigned env body p s cookie there h in
      let good = verify-sign codec c env.session_secret cookie env.expiry caller.seconds signed in
      let read : get_user std E c.email w.users ≡ (some q, none) =
        get_user_lem std E c.email w.users ∙ ap read_user (ap (raw_at E w.users) mail ∙ stored) in
      (
        c,
        mail,
        elim (Bool-cases (ltb env.expiry caller.seconds)) [
          | inl late ↦ ground (arith, good, read)
          | inr early ↦ elim (Bool-cases q.enabled) [
            | inl on ↦ ground (arith, good, read)
            | inr off ↦ ground (arith, good, read)
          ]
        ],
      )
