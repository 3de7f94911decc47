-- ===== src/Account/TwoFactor.antt =====
-- The endpoints of the second factor, internal/domain/auth/2fa.go.
use mathlib.Core.Option
-- SetRecoveryCodes of internal/models/user/user.go: a hash of each code's normal form.
use secret_share.Users.Store.{upsert}
use secret_share.User.{check_password, Bcrypt, User, norm_recovery}
use secret_share.Std.{Std}
use secret_share.Session.{Codec}
use secret_share.Prelude.{
  ◌≡◌, ◌⊎◌, inl, arith, inr, Option-cases, false, none, List, ℕ, [], true, Option, some, ◌∷◌, ◌==◌,
  not, String, length, if◌then◌else◌,
}
use secret_share.Login.Handler.{LoginState, Totp}
use secret_share.Http.{
  flag, internal, ok, text, error, Value, texts, bad_request, forbidden, parser_error,
}
use secret_share.Bolt.{Engine}
use secret_share.Account.Self.{Enrollment, AccountEnv, Outcome, answered, deref, with_self}

unfoldable pub hash_codes : Std → (ℕ → String → Option String) → List String → Option (List String)
hash_codes std salted [] = some []
hash_codes std salted (c ∷ cs) =
    let rest = hash_codes std salted cs in
    elim (salted (length cs) (norm_recovery std c)) [
      | none ↦ none
      | some h ↦ Option.map (λ hs. h ∷ hs) rest
    ]

unfoldable pub set_recovery_codes :
    Std → (ℕ → String → Option String) → List String → User → Option User
set_recovery_codes std salted codes p =
    Option.map (λ hs. record p { recovery_code_hashes = hs }) (hash_codes std salted codes)

abbrev pub enable_totp : User → User
enable_totp p = record p { totp_enabled = true }

abbrev pub clear_totp : User → User
clear_totp p = record p { totp_enabled = false; totp_secret_enc = ""; recovery_code_hashes = [] }

-- The answer that shows an enrolment, and the one that shows recovery codes.
abbrev pub enrollment_body : Enrollment → List (String × Value)
enrollment_body enr =
    ("secret", text enr.secret)
    ∷ ("otpauth_url", text enr.url)
    ∷ ("qr_png_base64", text enr.qr_png_base64)
    ∷ []

abbrev pub codes_body : List String → List (String × Value)
codes_body codes = ("ok", flag true) ∷ ("recovery_codes", texts codes) ∷ []

module _ (std : Std) (E : Engine) (codec : Codec) (bcrypt : Bcrypt) (totp : Totp) where
  abbrev pub State : Type 0
  State = LoginState std E codec bcrypt totp

  -- The write that ends each of the endpoints.
  unfoldable pub save_self : AccountEnv → User → List (String × Value) → State → Outcome State
  save_self env p body s =
      let (p', err, s') = upsert std E env.save env.now p s.users in
      elim err [
        | some e ↦ answered (internal (record s { users = s' }))
        | none ↦ answered (ok body (record s { users = s' }))
      ]

  -- The seal of a new secret, and the write of the pending enrolment.
  unfoldable pub enroll_self : AccountEnv → User → State → Outcome State
  enroll_self env p s = elim env.enrollment [
    | none ↦ answered (internal s)
    | some enr ↦ elim (env.seal enr.secret) [
      | none ↦ answered (internal s)
      | some enc ↦ save_self env (record p { totp_secret_enc = enc }) (enrollment_body enr) s
    ]
  ]

  -- `body` is the password of the request, none where it does not parse.
  unfoldable pub two_fa_setup : AccountEnv → Option String → State → Outcome State
  two_fa_setup env body s = with_self std E env.claims s.users s (λ found. deref found s (λ p.
      if p.password_hash == ""
      then answered (forbidden "two-factor auth requires a local password account" s)
      else elim body [
        | none ↦ answered (bad_request parser_error s)
        | some password ↦
            if not (check_password bcrypt p password)
            then answered (forbidden "incorrect password" s)
            else if p.totp_enabled
            then answered
                (error 409 (text "two-factor auth is already enabled; disable it first") s)
            else enroll_self env p s
      ]))

  -- New codes, hashed on the user, that the answer shows.
  unfoldable pub issue_codes : AccountEnv → (User → User) → User → State → Outcome State
  issue_codes env finish p s = elim env.codes [
    | none ↦ answered (internal s)
    | some codes ↦ elim (set_recovery_codes std env.salted codes p) [
      | none ↦ answered (internal s)
      | some p' ↦ save_self env (finish p') (codes_body codes) s
    ]
  ]

  -- `body` is the code of the request.
  unfoldable pub two_fa_confirm : AccountEnv → Option String → State → Outcome State
  two_fa_confirm env body s = with_self std E env.claims s.users s (λ found. deref found s (λ p.
      if p.totp_enabled
      then answered (error 409 (text "two-factor auth is already enabled") s)
      else if p.totp_secret_enc == ""
      then answered (error 400 (text "start setup first") s)
      else elim body [
        | none ↦ answered (bad_request parser_error s)
        | some code ↦ elim (totp.open_box p.totp_secret_enc) [
          | none ↦ answered (internal s)
          | some secret ↦
              if not (totp.validate (std.trim_space code) secret)
              then answered (error 400 (text "invalid code") s)
              else issue_codes env enable_totp p s
        ]
      ]))

  -- The body is parsed before the user is read.
  unfoldable pub two_fa_disable : AccountEnv → Option String → State → Outcome State
  two_fa_disable env body s = with_self std E env.claims s.users s (λ found. elim body [
    | none ↦ answered (bad_request parser_error s)
    | some password ↦ deref found s (λ p.
        if not (check_password bcrypt p password)
        then answered (forbidden "incorrect password" s)
        else save_self env (clear_totp p) (("ok", flag true) ∷ []) s)
  ])

  unfoldable pub two_fa_regenerate : AccountEnv → Option String → State → Outcome State
  two_fa_regenerate env body s = with_self std E env.claims s.users s (λ found. deref found s (λ p.
      if not p.totp_enabled
      then answered (error 400 (text "two-factor auth is not enabled") s)
      else elim body [
        | none ↦ answered (bad_request parser_error s)
        | some password ↦
            if not (check_password bcrypt p password)
            then answered (forbidden "incorrect password" s)
            else issue_codes env (λ q. q) p s
      ]))

  -- The two ends of an enrolment, and of an issue of codes.
  pub enroll_self-cases :
      (env : AccountEnv) (p : User) (s : State)
      → (enroll_self env p s ≡ answered (internal s))
        ⊎ ((enr : Enrollment) × (enc : String) × (env.enrollment ≡ some enr)
            × (env.seal enr.secret ≡ some enc)
            × (enroll_self env p s
                ≡ save_self env (record p { totp_secret_enc = enc }) (enrollment_body enr) s))
  unfolding enroll_self
  enroll_self-cases env p s = elim (Option-cases env.enrollment) [
    | inl e ↦ inl (ground arith)
    | inr (enr, e) ↦ elim (Option-cases (env.seal enr.secret)) [
      | inl e' ↦ inl (ground arith)
      | inr (enc, e') ↦ inr (enr, enc, e, e', ground arith)
    ]
  ]

  pub issue_codes-cases :
      (env : AccountEnv) (finish : User → User) (p : User) (s : State)
      → (issue_codes env finish p s ≡ answered (internal s))
        ⊎ ((codes : List String) × (hs : List String) × (env.codes ≡ some codes)
            × (hash_codes std env.salted codes ≡ some hs)
            × (issue_codes env finish p s
                ≡ save_self env
                    (finish (record p { recovery_code_hashes = hs }))
                    (codes_body codes)
                    s))
  unfolding issue_codes set_recovery_codes
  issue_codes-cases env finish p s = elim (Option-cases env.codes) [
    | inl e ↦ inl (ground arith)
    | inr (codes, e) ↦ elim (Option-cases (hash_codes std env.salted codes)) [
      | inl e' ↦ inl (ground arith)
      | inr (hs, e') ↦ inr (codes, hs, e, e', ground arith)
    ]
  ]
