-- ===== src/Account/Secured.antt =====
-- The state of the second factor on the user records, over the requests to
-- internal/domain/auth/account.go and internal/domain/auth/2fa.go.
pub mod Writes
use secret_share.Users.Store.{get_user}
use secret_share.Users.Fields.{bad_length}
use secret_share.User.{Bcrypt, normalize_email, set_password, check_password}
use secret_share.Std.{Std}
use secret_share.Session.{Codec}
use secret_share.Prelude.{
  ◌==◌, List, none, some, Option, [], ◌∷◌, inl, ◌||◌, inr, true, String, arith, not, Bool-cases,
  Option-cases,
}
use secret_share.Login.Handler.{Totp}
use secret_share.Http.{flag}
use secret_share.Bolt.{Engine}
use secret_share.Account.TwoFactor.{
  two_fa_confirm, two_fa_disable, two_fa_setup, State, enable_totp, two_fa_regenerate, clear_totp,
}
use secret_share.Account.Self.{safe_recover, AccountEnv}
use secret_share.Account.Secured.Writes.{
  behind_guard, issue_codes-AreSecured, users_after, AreSecured, save_self-AreSecured,
  enroll_self-AreSecured, rekey-AreSecured,
}
use secret_share.Account.Credentials.{
  EmailBody, rekey_if_free, change_email, change_password, PasswordBody,
}
use mathlib.Core.Path.{subst}
use secret_share.Account.Requests.{
  account_request, regenerates, confirms, renames, AccountRequest, rekeys, setups, disables,
  after_request,
}

module _ (std : Std) (E : Engine) (codec : Codec) (bcrypt : Bcrypt) (totp : Totp) where
  abbrev A : Type 0
  A = State std E codec bcrypt totp

  setup-AreSecured :
      (env : AccountEnv) (body : Option String) (s : A)
      → AreSecured std E codec bcrypt totp s.users
      → AreSecured std E codec bcrypt totp
          (users_after std E codec bcrypt totp (two_fa_setup std E codec bcrypt totp env body s))
  unfolding two_fa_setup safe_recover
  setup-AreSecured env body s h = behind_guard std E codec bcrypt totp env s _ h h (λ p good.
      elim (Bool-cases (p.password_hash == "")) [
        | inl blank ↦ subst (AreSecured std E codec bcrypt totp) (ground arith) h
        | inr filled ↦ elim (Option-cases body) [
          | inl e ↦ subst (AreSecured std E codec bcrypt totp) (ground arith) h
          | inr (pw, e) ↦ elim (Bool-cases (check_password bcrypt p pw)) [
            | inr bad ↦ subst (AreSecured std E codec bcrypt totp) (ground arith) h
            | inl right ↦ elim (Bool-cases p.totp_enabled) [
              | inl on ↦ subst (AreSecured std E codec bcrypt totp) (ground arith) h
              | inr off ↦
                  subst (AreSecured std E codec bcrypt totp) (ground arith)
                    (enroll_self-AreSecured std E codec bcrypt totp env p s h off)
            ]
          ]
        ]
      ])

  confirm-AreSecured :
      (env : AccountEnv) (body : Option String) (s : A)
      → AreSecured std E codec bcrypt totp s.users
      → AreSecured std E codec bcrypt totp
          (users_after std E codec bcrypt totp (two_fa_confirm std E codec bcrypt totp env body s))
  unfolding two_fa_confirm safe_recover
  confirm-AreSecured env body s h = behind_guard std E codec bcrypt totp env s _ h h (λ p good.
      elim (Bool-cases p.totp_enabled) [
        | inl on ↦ subst (AreSecured std E codec bcrypt totp) (ground arith) h
        | inr off ↦ elim (Bool-cases (p.totp_secret_enc == "")) [
          | inl blank ↦ subst (AreSecured std E codec bcrypt totp) (ground arith) h
          | inr sealed ↦ elim (Option-cases body) [
            | inl e ↦ subst (AreSecured std E codec bcrypt totp) (ground arith) h
            | inr (code, e) ↦ elim (Option-cases (totp.open_box p.totp_secret_enc)) [
              | inl e' ↦ subst (AreSecured std E codec bcrypt totp) (ground arith) h
              | inr (secret, e') ↦ elim (Bool-cases (totp.validate (std.trim_space code) secret)) [
                | inr bad ↦ subst (AreSecured std E codec bcrypt totp) (ground arith) h
                | inl right ↦ subst (AreSecured std E codec bcrypt totp) (ground arith) (
                    issue_codes-AreSecured std E codec bcrypt totp env enable_totp p s h
                      (λ hs on. sealed))
              ]
            ]
          ]
        ]
      ])

  disable-AreSecured :
      (env : AccountEnv) (body : Option String) (s : A)
      → AreSecured std E codec bcrypt totp s.users
      → AreSecured std E codec bcrypt totp
          (users_after std E codec bcrypt totp (two_fa_disable std E codec bcrypt totp env body s))
  unfolding two_fa_disable safe_recover
  disable-AreSecured env none s h = behind_guard std E codec bcrypt totp env s _ h h (λ p good. h)
  disable-AreSecured env (some pw) s h = behind_guard std E codec bcrypt totp env s _ h h (λ p good.
      elim (Bool-cases (check_password bcrypt p pw)) [
        | inr bad ↦ subst (AreSecured std E codec bcrypt totp) (ground arith) h
        | inl right ↦ subst (AreSecured std E codec bcrypt totp) (ground arith) (
            save_self-AreSecured std E codec bcrypt totp env (clear_totp p) (("ok", flag true) ∷ [])
              s h (λ on. absurd (ground arith)))
      ])

  regenerate-AreSecured :
      (env : AccountEnv) (body : Option String) (s : A)
      → AreSecured std E codec bcrypt totp s.users
      → AreSecured std E codec bcrypt totp (
          users_after std E codec bcrypt totp
            (two_fa_regenerate std E codec bcrypt totp env body s))
  unfolding two_fa_regenerate safe_recover
  regenerate-AreSecured env body s h = behind_guard std E codec bcrypt totp env s _ h h (λ p good.
      elim (Bool-cases p.totp_enabled) [
        | inr off ↦ subst (AreSecured std E codec bcrypt totp) (ground arith) h
        | inl on ↦ elim (Option-cases body) [
          | inl e ↦ subst (AreSecured std E codec bcrypt totp) (ground arith) h
          | inr (pw, e) ↦ elim (Bool-cases (check_password bcrypt p pw)) [
            | inr bad ↦ subst (AreSecured std E codec bcrypt totp) (ground arith) h
            | inl right ↦
                subst (AreSecured std E codec bcrypt totp) (ground arith)
                  (issue_codes-AreSecured std E codec bcrypt totp env (λ q. q) p s h (λ hs. good))
          ]
        ]
      ])

  email-AreSecured :
      (env : AccountEnv) (body : Option EmailBody) (s : A)
      → AreSecured std E codec bcrypt totp s.users
      → AreSecured std E codec bcrypt totp
          (users_after std E codec bcrypt totp (change_email std E codec bcrypt totp env body s))
  unfolding change_email safe_recover rekey_if_free
  email-AreSecured env none s h =
      behind_guard std E codec bcrypt totp env s _ h h
        (λ p good. subst (AreSecured std E codec bcrypt totp) (ground arith) h)
  email-AreSecured env (some b) s h =
      let new_email = normalize_email std b.email in
      behind_guard std E codec bcrypt totp env s _ h h (λ p good.
        elim (Bool-cases (
          p.password_hash == ""
          || not (check_password bcrypt p b.password)
          || new_email == ""
          || not (std.contains new_email "@")
          || new_email == p.email)) [
            | inl stop ↦ subst (AreSecured std E codec bcrypt totp) (ground arith) h
            | inr go ↦ elim (Option-cases (get_user std E new_email s.users).1) [
              | inr (e, bad) ↦ subst (AreSecured std E codec bcrypt totp) (ground arith) h
              | inl fine ↦ elim (Option-cases (get_user std E new_email s.users).0) [
                | inr (q, taken) ↦ subst (AreSecured std E codec bcrypt totp) (ground arith) h
                | inl free ↦
                    subst (AreSecured std E codec bcrypt totp) (ground arith)
                      (rekey-AreSecured std E codec bcrypt totp env p new_email s h good)
              ]
            ]
          ])

  password-AreSecured :
      (env : AccountEnv) (body : Option PasswordBody) (s : A)
      → AreSecured std E codec bcrypt totp s.users
      → AreSecured std E codec bcrypt totp
          (users_after std E codec bcrypt totp (change_password std E codec bcrypt totp env body s))
  unfolding change_password safe_recover set_password
  password-AreSecured env none s h =
      behind_guard std E codec bcrypt totp env s _ h h
        (λ p good. subst (AreSecured std E codec bcrypt totp) (ground arith) h)
  password-AreSecured env (some b) s h = behind_guard std E codec bcrypt totp env s _ h h (λ p good.
      elim (Bool-cases (
        p.password_hash == ""
        || not (check_password bcrypt p b.current_password)
        || bad_length b.new_password)) [
          | inl stop ↦ subst (AreSecured std E codec bcrypt totp) (ground arith) h
          | inr go ↦ elim (Option-cases env.hash) [
            | inl failed ↦ subst (AreSecured std E codec bcrypt totp) (ground arith) h
            | inr (new, e) ↦ subst (AreSecured std E codec bcrypt totp) (ground arith) (
                save_self-AreSecured std E codec bcrypt totp env (record p { password_hash = new })
                  (("ok", flag true) ∷ []) s h good)
          ]
        ])

  -- The requests run one after the other, each with its own inputs.
  abbrev pub after_account_requests : List (AccountEnv × AccountRequest) → A → A
  after_account_requests [] s = s
  after_account_requests ((env, r) ∷ rest) s =
      after_account_requests rest (after_request std E codec bcrypt totp env r s)

  request-AreSecured :
      (env : AccountEnv) (r : AccountRequest) (s : A)
      → AreSecured std E codec bcrypt totp s.users
      → AreSecured std E codec bcrypt totp (after_request std E codec bcrypt totp env r s).users
  unfolding after_request account_request
  request-AreSecured env (setups body) s h = setup-AreSecured env body s h
  request-AreSecured env (confirms body) s h = confirm-AreSecured env body s h
  request-AreSecured env (disables body) s h = disable-AreSecured env body s h
  request-AreSecured env (regenerates body) s h = regenerate-AreSecured env body s h
  request-AreSecured env (renames body) s h = email-AreSecured env body s h
  request-AreSecured env (rekeys body) s h = password-AreSecured env body s h

  -- Where every stored user with a second factor has a sealed secret for it, that holds after any
  -- sequence of requests to change the email or the password, to set the second factor up, to
  -- confirm or to disable it, or to renew its recovery codes, whatever sessions they come in and
  -- whichever of their calls and commits fail.
  pub after_account_requests-AreSecured :
      (requests : List (AccountEnv × AccountRequest)) (s : A)
      → AreSecured std E codec bcrypt totp s.users
      → AreSecured std E codec bcrypt totp (after_account_requests requests s).users
  after_account_requests-AreSecured [] s h = h
  after_account_requests-AreSecured ((env, r) ∷ rest) s h =
      after_account_requests-AreSecured rest (after_request std E codec bcrypt totp env r s)
        (request-AreSecured env r s h)
