-- ===== src/Account/Credentials.antt =====
-- The change of the email and of the password, internal/domain/auth/account.go.
use secret_share.Users.Store.{upsert, get_user, delete_user}
use secret_share.Users.Fields.{bad_length}
use secret_share.User.{set_password, check_password, normalize_email, Bcrypt, User}
use secret_share.Std.{Std}
use secret_share.Session.{Codec, sign, Claims}
use secret_share.Prelude.{[], not, ◌||◌, true, ◌==◌, Option, ◌∷◌, String, none, some, if◌then◌else◌}
use secret_share.Login.Handler.{Totp}
use secret_share.Http.{text, bad_request, internal, forbidden, parser_error, flag, error, ok}
use secret_share.Bolt.{Error, Engine}
use secret_share.Account.TwoFactor.{State, save_self}
use secret_share.Account.Self.{Outcome, deref, with_self, AccountEnv, answered}

pub record EmailBody : Type 0 where
  pub email : String
  pub password : String

pub record PasswordBody : Type 0 where
  pub current_password : String
  pub new_password : String

module _ (std : Std) (E : Engine) (codec : Codec) (bcrypt : Bcrypt) (totp : Totp) where
  -- The session cookie of the user; none where it cannot be signed.
  unfoldable pub reissue_session : AccountEnv → User → Option String
  reissue_session env p =
      let claims : Claims = record {
        subject = p.email;
        email = p.email;
        name = p.name;
        groups = [];
        role = p.role;
        exp = 0;
      } in
      sign codec claims env.session_secret env.expiry

  -- The user is written under its new email, and then deleted under the old one; an error of the
  -- delete is only logged.
  unfoldable pub rekey :
      AccountEnv
      → User
      → String
      → State std E codec bcrypt totp
      → Outcome (State std E codec bcrypt totp)
  rekey env p new_email s =
      let (p', err, s1) = upsert std E env.save env.now (record p { email = new_email }) s.users in
      elim err [
        | some e ↦ answered (internal (record s { users = s1 }))
        | none ↦
            let (_, _, s2) = delete_user std E env.drop p.email s1 in
            elim (reissue_session env p') [
              | none ↦ answered (internal (record s { users = s2 }))
              | some cookie ↦ answered (
                  ok (("ok", flag true) ∷ ("email", text new_email) ∷ [])
                    (record s { users = s2; cookie = some cookie }))
            ]
      ]

  -- Over the lookup of the new email.
  unfoldable pub rekey_if_free :
      AccountEnv
      → User
      → String
      → Option User × Option Error
      → State std E codec bcrypt totp
      → Outcome (State std E codec bcrypt totp)
  rekey_if_free env p new_email (existing, some e) s = answered (internal s)
  rekey_if_free env p new_email (some q, none) s =
      answered (error 409 (text "that email is already in use") s)
  rekey_if_free env p new_email (none, none) s = rekey env p new_email s

  unfoldable pub change_email :
      AccountEnv
      → Option EmailBody
      → State std E codec bcrypt totp
      → Outcome (State std E codec bcrypt totp)
  change_email env body s = with_self std E env.claims s.users s (λ found. deref found s (λ p.
      if p.password_hash == ""
      then answered (forbidden "changing email requires a local password account" s)
      else elim body [
        | none ↦ answered (bad_request parser_error s)
        | some b ↦
            let new_email = normalize_email std b.email in
            if not (check_password bcrypt p b.password)
            then answered (forbidden "incorrect password" s)
            else if new_email == "" || not (std.contains new_email "@")
            then answered (error 400 (text "a valid email is required") s)
            else if new_email == p.email
            then answered (ok (("ok", flag true) ∷ ("email", text p.email) ∷ []) s)
            else rekey_if_free env p new_email (get_user std E new_email s.users) s
      ]))

  unfoldable pub change_password :
      AccountEnv
      → Option PasswordBody
      → State std E codec bcrypt totp
      → Outcome (State std E codec bcrypt totp)
  change_password env body s = with_self std E env.claims s.users s (λ found. deref found s (λ p.
      if p.password_hash == ""
      then answered (forbidden "this account has no password to change" s)
      else elim body [
        | none ↦ answered (bad_request parser_error s)
        | some b ↦
            if not (check_password bcrypt p b.current_password)
            then answered (forbidden "incorrect password" s)
            else if bad_length b.new_password
            then answered (error 400 (text "password must be 8-72 characters") s)
            else elim (set_password env.hash p) [
              | none ↦ answered (internal s)
              | some p' ↦ save_self std E codec bcrypt totp env p' (("ok", flag true) ∷ []) s
            ]
      ]))
