-- ===== src/Account/Gated.antt =====
-- The endpoints of internal/domain/auth/account.go and 2fa.go behind the gate of their routes
-- (internal/server/routes.go).
use secret_share.Secrets.Lifecycle.{failed}
use secret_share.Server.World.{Caller}
use secret_share.Server.Middleware.{verify_session}
use secret_share.Config.{AuthConfig}
use secret_share.Account.Refused.{local_self_user-verify_session}
use secret_share.Users.Store.{upsert, get_user}
use secret_share.User.{set_password, User, normalize_email, Bcrypt}
use secret_share.Std.{Std}
use secret_share.Session.{Claims, Codec}
use secret_share.Prelude.{
  ◌==◌, ◌∷◌, some, List, Bool, false, Option, String, inr, ◌≡◌, refl, true, [], arith, none, ap,
  inl, ◌∙◌, Option-cases,
}
use secret_share.Login.Handler.{Totp}
use secret_share.Http.{Reply, Value, flag}
use secret_share.Bolt.{Error, Engine}
use secret_share.Account.TwoFactor.{
  enable_totp, two_fa_confirm, set_recovery_codes, codes_body, two_fa_disable, issue_codes, State,
  clear_totp, two_fa_regenerate, two_fa_setup, enroll_self, enroll_self-cases, save_self,
}
use secret_share.Account.Self.{AccountEnv, with_self, answered, local_self_user, Outcome, panicked}
use secret_share.Account.Requests.{
  renames, AccountRequest, account_request, regenerates, setups, disables, rekeys, confirms,
}
use secret_share.Account.Outcomes.{quiet}
use secret_share.Account.Credentials.{
  change_email, rekey, rekey_if_free, change_password, reissue_session,
}

abbrev is_answered : {S : Type 0} → Outcome S → Bool
is_answered (answered r) = true
is_answered (panicked s) = false

answer_of : {S : Type 0} (o : Outcome S) → is_answered o ≡ true → (r : Reply S) × (o ≡ answered r)
answer_of (answered r) h = (r, refl)
answer_of (panicked s) h = absurd cc

module _ (std : Std) (E : Engine) (codec : Codec) (bcrypt : Bcrypt) (totp : Totp) where
  abbrev A : Type 0
  A = State std E codec bcrypt totp

  save_self_ends :
      (env : AccountEnv) (p : User) (body : List (String × Value)) (s : A)
      → is_answered (save_self std E codec bcrypt totp env p body s) ≡ true
  unfolding save_self
  save_self_ends env p body s = elim (Option-cases (upsert std E env.save env.now p s.users).1) [
    | inl fine ↦ ground arith
    | inr (e, broken) ↦ ground arith
  ]

  enroll_self_ends :
      (env : AccountEnv) (p : User) (s : A)
      → is_answered (enroll_self std E codec bcrypt totp env p s) ≡ true
  enroll_self_ends env p s = elim (enroll_self-cases std E codec bcrypt totp env p s) [
    | inl failed ↦ ap is_answered failed
    | inr (enr, enc, made, sealed, wrote) ↦ ap is_answered wrote ∙ save_self_ends env _ _ s
  ]

  issue_codes_ends :
      (env : AccountEnv) (finish : User → User) (p : User) (s : A)
      → is_answered (issue_codes std E codec bcrypt totp env finish p s) ≡ true
  unfolding issue_codes
  issue_codes_ends env finish p s = elim (Option-cases env.codes) [
    | inl failed ↦ ground arith
    | inr (codes, made) ↦ elim (Option-cases (set_recovery_codes std env.salted codes p)) [
      | inl failed ↦ ground arith
      | inr (q, hashed) ↦ ground (arith, save_self_ends env (finish q) (codes_body codes) s)
    ]
  ]

  rekey_ends :
      (env : AccountEnv) (p : User) (email : String) (o : Option User × Option Error) (s : A)
      → is_answered (rekey_if_free std E codec bcrypt totp env p email o s) ≡ true
  unfolding rekey_if_free rekey
  rekey_ends env p email (q, some e) s = refl
  rekey_ends env p email (some q, none) s = refl
  rekey_ends env p email (none, none) s =
      let r = upsert std E env.save env.now (record p { email = email }) s.users in
      elim (Option-cases r.1) [
        | inr (e, broken) ↦ ground arith
        | inl fine ↦ elim (Option-cases (reissue_session std E codec bcrypt totp env r.0)) [
          | inl unsigned ↦ ground arith
          | inr (cookie, signed) ↦ ground arith
        ]
      ]

  request_ends :
      (env : AccountEnv) (r : AccountRequest) (s : A) (p : User)
      → (local_self_user std E env.claims s.users).0 ≡ some p
      → is_answered (account_request std E codec bcrypt totp env r s) ≡ true
  unfolding account_request with_self two_fa_setup two_fa_confirm two_fa_disable two_fa_regenerate
      change_email change_password
  request_ends env (setups none) s p h =
      let silent = quiet std E codec bcrypt totp env.claims s in ground arith
  request_ends env (setups (some pw)) s p h =
      let silent = quiet std E codec bcrypt totp env.claims s in
      ground (arith, enroll_self_ends env p s)
  request_ends env (disables none) s p h =
      let silent = quiet std E codec bcrypt totp env.claims s in ground arith
  request_ends env (disables (some pw)) s p h =
      let silent = quiet std E codec bcrypt totp env.claims s in
      ground (arith, save_self_ends env (clear_totp p) (("ok", flag true) ∷ []) s)
  request_ends env (regenerates none) s p h =
      let silent = quiet std E codec bcrypt totp env.claims s in ground arith
  request_ends env (regenerates (some pw)) s p h =
      let silent = quiet std E codec bcrypt totp env.claims s in
      ground (arith, issue_codes_ends env (λ q. q) p s)
  request_ends env (renames none) s p h =
      let silent = quiet std E codec bcrypt totp env.claims s in ground arith
  request_ends env (renames (some b)) s p h =
      let silent = quiet std E codec bcrypt totp env.claims s in
      let new_email = normalize_email std b.email in
      ground (arith, rekey_ends env p new_email (get_user std E new_email s.users) s)
  request_ends env (rekeys none) s p h =
      let silent = quiet std E codec bcrypt totp env.claims s in ground arith
  request_ends env (rekeys (some b)) s p h =
      let silent = quiet std E codec bcrypt totp env.claims s in
      elim (Option-cases (set_password env.hash p)) [
        | inl failed ↦ ground arith
        | inr (q, hashed) ↦ ground (arith, save_self_ends env q (("ok", flag true) ∷ []) s)
      ]
  request_ends env (confirms none) s p h =
      let silent = quiet std E codec bcrypt totp env.claims s in ground arith
  request_ends env (confirms (some code)) s p h =
      let silent = quiet std E codec bcrypt totp env.claims s in
      elim (Option-cases (totp.open_box p.totp_secret_enc)) [
        | inl shut ↦ ground arith
        | inr (secret, read) ↦ ground (arith, issue_codes_ends env enable_totp p s)
      ]

  -- Behind the gate none of the endpoints that change the email, the password and the second factor
  -- panics: for a session that the gate lets through, with an email that is not blank, every
  -- request to one of these six, on the same users, is answered by its handler, whatever its body
  -- and the calls that it makes give.
  pub account_request-verify_session :
      (cfg : AuthConfig) (caller : Caller) (c : Claims) (env : AccountEnv) (r : AccountRequest)
      (s : A)
      → (verify_session std E codec cfg caller s.users).0 ≡ some c
      → (c.email == "") ≡ false
      → env.claims ≡ some c
      → (a : Reply A) × (account_request std E codec bcrypt totp env r s ≡ answered a)
  account_request-verify_session cfg caller c env r s known named left =
      let (p, found, role) =
        local_self_user-verify_session std E codec cfg caller s.users c known named in
      answer_of (account_request std E codec bcrypt totp env r s) (
        request_ends env r s p
          (ap (λ o. (local_self_user std E o s.users).0) left ∙ ap (λ o. o.0) found))
