-- ===== src/Account/Proven.antt =====
-- That every request to internal/domain/auth/account.go and internal/domain/auth/2fa.go which
-- changes a user has shown the password or a code of that user.
use secret_share.Account.Credentials.{change_password, change_email, EmailBody, PasswordBody}
use secret_share.User.{check_password, User, Bcrypt}
use secret_share.Std.{Std}
use secret_share.Session.{Codec}
use secret_share.Prelude.{
  sym, some, ◌≡◌, String, arith, inr, ◌⊎◌, Option, refl, none, inl, Bool-cases, Option-cases,
}
use secret_share.Login.Handler.{Totp}
use secret_share.Bolt.{Engine}
use secret_share.Account.TwoFactor.{
  two_fa_confirm, two_fa_disable, two_fa_regenerate, two_fa_setup, State,
}
use secret_share.Account.Self.{
  with_self_lem, local_self_user_lem, Outcome, with_self, safe_recover, AccountEnv, local_self_user,
}
use secret_share.Account.Requests.{
  check_password-IsPassword, renames, disables, rekeys, account_request, confirms, regenerates,
  IsAllowed, after_request, setups, AccountRequest, IsProof,
}
use mathlib.Core.Path.{subst}

module _ (std : Std) (E : Engine) (codec : Codec) (bcrypt : Bcrypt) (totp : Totp) where
  abbrev A : Type 0
  A = State std E codec bcrypt totp

  abbrev left : Outcome A → A
  left o = (safe_recover o).2

  -- A handler behind the guard: it panics without a user, and where it has none that is the user
  -- of the session.
  behind_guard :
      (env : AccountEnv) (r : AccountRequest) (s : A) (go : Option User → Outcome A)
      → (left (go none)).users ≡ s.users
      → ((p : User) → ((left (go (some p))).users ≡ s.users) ⊎ IsProof std E codec bcrypt totp r p)
      → IsAllowed std E codec bcrypt totp env r s (left (with_self std E env.claims s.users s go))
  behind_guard env r s go missing found =
      let self = (local_self_user_lem std E env.claims s.users).1 in
      subst (λ o. IsAllowed std E codec bcrypt totp env r s (left o))
        (sym (with_self_lem std E env.claims s.users s go))
        (elim (Option-cases (local_self_user std E env.claims s.users).0) [
          | inl h ↦ rw h (inl missing)
          | inr (p, h) ↦
              rw h (elim (found p) [ inl same ↦ inl same | inr proof ↦ inr (p, self p h, proof) ])
        ])

  setup-IsAllowed :
      (env : AccountEnv) (body : Option String) (s : A)
      → IsAllowed std E codec bcrypt totp env
          (setups body)
          s
          (left (two_fa_setup std E codec bcrypt totp env body s))
  unfolding two_fa_setup safe_recover
  setup-IsAllowed env none s = behind_guard env (setups none) s _ refl (λ p. inl (ground arith))
  setup-IsAllowed env (some pw) s = behind_guard env (setups (some pw)) s _ refl (λ p.
      elim (Bool-cases (check_password bcrypt p pw)) [
        | inl good ↦ inr (pw, refl, check_password-IsPassword std E codec bcrypt totp p pw good)
        | inr bad ↦ inl (ground arith)
      ])

  confirm-IsAllowed :
      (env : AccountEnv) (body : Option String) (s : A)
      → IsAllowed std E codec bcrypt totp env
          (confirms body)
          s
          (left (two_fa_confirm std E codec bcrypt totp env body s))
  unfolding two_fa_confirm safe_recover
  confirm-IsAllowed env none s = behind_guard env (confirms none) s _ refl (λ p. inl (ground arith))
  confirm-IsAllowed env (some code) s = behind_guard env (confirms (some code)) s _ refl (λ p.
      elim (Bool-cases p.totp_enabled) [
        | inl on ↦ inl (ground arith)
        | inr off ↦ elim (Option-cases (totp.open_box p.totp_secret_enc)) [
          | inl sealed ↦ inl (ground arith)
          | inr (secret, opens) ↦ elim (Bool-cases (totp.validate (std.trim_space code) secret)) [
            | inl good ↦ inr ((code, secret, refl, opens, good), off)
            | inr bad ↦ inl (ground arith)
          ]
        ]
      ])

  disable-IsAllowed :
      (env : AccountEnv) (body : Option String) (s : A)
      → IsAllowed std E codec bcrypt totp env
          (disables body)
          s
          (left (two_fa_disable std E codec bcrypt totp env body s))
  unfolding two_fa_disable safe_recover
  disable-IsAllowed env none s = behind_guard env (disables none) s _ refl (λ p. inl refl)
  disable-IsAllowed env (some pw) s = behind_guard env (disables (some pw)) s _ refl (λ p.
      elim (Bool-cases (check_password bcrypt p pw)) [
        | inl good ↦ inr (pw, refl, check_password-IsPassword std E codec bcrypt totp p pw good)
        | inr bad ↦ inl (ground arith)
      ])

  regenerate-IsAllowed :
      (env : AccountEnv) (body : Option String) (s : A)
      → IsAllowed std E codec bcrypt totp env
          (regenerates body)
          s
          (left (two_fa_regenerate std E codec bcrypt totp env body s))
  unfolding two_fa_regenerate safe_recover
  regenerate-IsAllowed env none s =
      behind_guard env (regenerates none) s _ refl (λ p. inl (ground arith))
  regenerate-IsAllowed env (some pw) s = behind_guard env (regenerates (some pw)) s _ refl (λ p.
      elim (Bool-cases (check_password bcrypt p pw)) [
        | inl good ↦ inr (pw, refl, check_password-IsPassword std E codec bcrypt totp p pw good)
        | inr bad ↦ inl (ground arith)
      ])

  email-IsAllowed :
      (env : AccountEnv) (body : Option EmailBody) (s : A)
      → IsAllowed std E codec bcrypt totp env
          (renames body)
          s
          (left (change_email std E codec bcrypt totp env body s))
  unfolding change_email safe_recover
  email-IsAllowed env none s = behind_guard env (renames none) s _ refl (λ p. inl (ground arith))
  email-IsAllowed env (some b) s = behind_guard env (renames (some b)) s _ refl (λ p.
      elim (Bool-cases (check_password bcrypt p b.password)) [
        | inl good ↦
            inr (
              b.password,
              refl,
              check_password-IsPassword std E codec bcrypt totp p b.password good,
            )
        | inr bad ↦ inl (ground arith)
      ])

  password-IsAllowed :
      (env : AccountEnv) (body : Option PasswordBody) (s : A)
      → IsAllowed std E codec bcrypt totp env
          (rekeys body)
          s
          (left (change_password std E codec bcrypt totp env body s))
  unfolding change_password safe_recover
  password-IsAllowed env none s = behind_guard env (rekeys none) s _ refl (λ p. inl (ground arith))
  password-IsAllowed env (some b) s = behind_guard env (rekeys (some b)) s _ refl (λ p.
      elim (Bool-cases (check_password bcrypt p b.current_password)) [
        | inl good ↦ inr (
          b.current_password,
          refl,
          check_password-IsPassword std E codec bcrypt totp p b.current_password good,
        )
        | inr bad ↦ inl (ground arith)
      ])

  -- A request to change the email or the password, to set the second factor up, to confirm or to
  -- disable it, or to renew its recovery codes, either leaves the store of users as it was, or it
  -- comes in a session of an enabled stored user and shows the current password of that user; the
  -- confirmation shows instead a code that is valid now for the secret of the pending enrolment, of
  -- a user that has no second factor yet.
  pub account_request_proven :
      (env : AccountEnv) (r : AccountRequest) (s : A)
      → IsAllowed std E codec bcrypt totp env r s (after_request std E codec bcrypt totp env r s)
  unfolding after_request account_request
  account_request_proven env (setups body) s = setup-IsAllowed env body s
  account_request_proven env (confirms body) s = confirm-IsAllowed env body s
  account_request_proven env (disables body) s = disable-IsAllowed env body s
  account_request_proven env (regenerates body) s = regenerate-IsAllowed env body s
  account_request_proven env (renames body) s = email-IsAllowed env body s
  account_request_proven env (rekeys body) s = password-IsAllowed env body s
