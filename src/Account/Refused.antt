-- ===== src/Account/Refused.antt =====
-- What the endpoints of internal/domain/auth/account.go and internal/domain/auth/2fa.go answer where
-- localSelfUser has refused: the code goes on, and reads a nil user.
use secret_share.Users.Store.{get_user, UserStore}
use secret_share.Server.World.{Caller}
use secret_share.Server.Middleware.{verify_session}
use secret_share.Config.{AuthConfig}
use secret_share.User.{User, Bcrypt}
use secret_share.Std.{Std}
use secret_share.Session.{Claims, from_ctx, Codec}
use secret_share.Prelude.{
  ap, ◌==◌, inr, inl, false, Bool-cases, Option-cases, some, arith, none, ◌≡◌,
}
use secret_share.Login.Handler.{Totp}
use secret_share.Http.{internal, Reply, bad_request, parser_error}
use secret_share.Bolt.{Engine}
use secret_share.Account.TwoFactor.{
  two_fa_regenerate, two_fa_disable, State, two_fa_setup, two_fa_confirm,
}
use secret_share.Account.Self.{
  local_self_user_lem, IsSelf, fresh, with_self, local_self_user, AccountEnv, safe_recover,
}
use secret_share.Account.Requests.{
  rekeys, AccountRequest, account_request, confirms, renames, regenerates, disables, setups,
}
use secret_share.Account.Outcomes.{quiet}
use secret_share.Account.Credentials.{change_email, change_password}

module _ (std : Std) (E : Engine) (codec : Codec) (bcrypt : Bcrypt) (totp : Totp) where
  abbrev A : Type 0
  A = State std E codec bcrypt totp

  -- The body is parsed before the user is read in one of the endpoints alone.
  abbrev pub refused_answer : AccountRequest → A → Reply A
  refused_answer (disables none) s = bad_request parser_error s
  refused_answer r s = internal s

  refused_by_guard :
      (env : AccountEnv) (r : AccountRequest) (s : A)
      → (local_self_user std E env.claims s.users).0 ≡ none
      → safe_recover (account_request std E codec bcrypt totp env r s) ≡ refused_answer r s
  unfolding account_request safe_recover with_self two_fa_setup two_fa_confirm two_fa_disable
      two_fa_regenerate change_email change_password
  refused_by_guard env (setups body) s h =
      let silent = quiet std E codec bcrypt totp env.claims s in ground arith
  refused_by_guard env (confirms body) s h =
      let silent = quiet std E codec bcrypt totp env.claims s in ground arith
  refused_by_guard env (disables none) s h =
      let silent = quiet std E codec bcrypt totp env.claims s in ground arith
  refused_by_guard env (disables (some pw)) s h =
      let silent = quiet std E codec bcrypt totp env.claims s in ground arith
  refused_by_guard env (regenerates body) s h =
      let silent = quiet std E codec bcrypt totp env.claims s in ground arith
  refused_by_guard env (renames body) s h =
      let silent = quiet std E codec bcrypt totp env.claims s in ground arith
  refused_by_guard env (rekeys body) s h =
      let silent = quiet std E codec bcrypt totp env.claims s in ground arith

  -- Where no enabled user is stored under the email of the session, or there is no session, or the
  -- lookup fails, each of the six endpoints that change the email, the password and the second
  -- factor answers an internal error (not the refusal that the guard has written) and leaves the
  -- state as it was; the disabling of the second factor answers a bad request instead where the
  -- body does not parse.
  pub account_request_refused :
      (env : AccountEnv) (r : AccountRequest) (s : A)
      → ((p : User) → ¬ IsSelf std E env.claims p s.users)
      → safe_recover (account_request std E codec bcrypt totp env r s) ≡ refused_answer r s
  account_request_refused env r s nobody_there =
      elim (Option-cases (local_self_user std E env.claims s.users).0) [
        | inl unknown ↦ refused_by_guard env r s unknown
        | inr (p, there) ↦
            absurd (nobody_there p ((local_self_user_lem std E env.claims s.users).1 p there))
      ]

module _ (std : Std) (E : Engine) (codec : Codec) (cfg : AuthConfig) where
  -- The guard refuses nobody whom the gate of internal/server/middleware.go has let through on the
  -- same users, under an email that is not blank: it finds the user whose role the gate gave.
  pub local_self_user-verify_session :
      (caller : Caller) (users : UserStore std E) (c : Claims)
      → (verify_session std E codec cfg caller users).0 ≡ some c
      → (c.email == "") ≡ false
      → (p : User) × (local_self_user std E (some c) users ≡ (some p, none, fresh))
        × (c.role ≡ p.role)
  unfolding verify_session local_self_user
  local_self_user-verify_session caller users c known named =
      elim (Option-cases (from_ctx codec caller.seconds caller.cookie cfg.session_secret)) [
        | inl guest_only ↦ absurd (ground arith)
        | inr (claims, cookie) ↦ elim (Option-cases (get_user std E claims.email users).1) [
          | inr (e, broken) ↦ absurd (ground arith)
          | inl fine ↦ elim (Option-cases (get_user std E claims.email users).0) [
            | inl nobody ↦ absurd (ground arith)
            | inr (p, found) ↦ elim (Bool-cases p.enabled) [
              | inr off ↦ absurd (ground arith)
              | inl on ↦
                  let same : c ≡ record claims { role = p.role } = ground arith in
                  let mail : c.email ≡ claims.email = ap (λ d. d.email) same in
                  (p, ground (arith, mail), ap (λ d. d.role) same)
            ]
          ]
        ]
      ]
