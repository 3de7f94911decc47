-- ===== src/Passkey/Register.antt =====
-- The endpoints by which a user manages its passkeys, internal/domain/auth/webauthn.go.
use secret_share.Users.Store.{upsert}
use secret_share.User.{Bcrypt, User, check_password}
use secret_share.Std.{Std}
use secret_share.Session.{Claims}
use secret_share.Secrets.Handler.{rejected, settled}
use secret_share.Secret.{Time}
use secret_share.Prelude.{
  [], Option, Bool, ◌==◌, false, true, none, List, String, ◌++◌, some, ◌∷◌, not, if◌then◌else◌,
}
use secret_share.Passkey.Ceremony.{
  PasskeyState, webauthn_service, take_webauthn_session, reg_cookie, offer,
}
use secret_share.Passkey.{Stored, passkey_user, WebAuthn, decode_blob, BlobCodec, CeremonyBox}
use secret_share.Http.{
  formatted, error, not_found, forbidden, flag, parser_error, text, bad_request, listing, ok, Value,
  internal,
}
use secret_share.Bolt.{Error, Engine}
use secret_share.Account.Self.{with_self, deref, Outcome, answered}

-- What they read: the session, the Origin header, the ceremony cookie, the clock (the date as a
-- text for the record), the random handle (none for an error), and the commit of the write.
pub record PasskeyEnv : Type 0 where
  pub claims : Option Claims
  pub origin : String
  pub ceremony_cookie : String
  pub now : Time
  pub today : String
  pub new_handle : Option String
  pub save : Option Error

module _ (std : Std) (E : Engine) (bcrypt : Bcrypt) (blobs : BlobCodec) (wa : WebAuthn)
    (box : CeremonyBox) where
  abbrev pub S : Type 0
  S = PasskeyState std E

  -- A write of the user with its new blob, and the end.
  unfoldable pub save_passkeys : PasskeyEnv → User → List Stored → S → Outcome S
  save_passkeys env p stored s = elim (blobs.encode stored) [
    | none ↦ answered (internal s)
    | some raw ↦
        let (_, err, users) = upsert std E env.save env.now (record p { passkeys = raw }) s.users in
        elim err [
          | some e ↦ answered (internal (record s { users = users }))
          | none ↦ answered (ok (("ok", flag true) ∷ []) (record s { users = users }))
        ]
  ]

  -- The options for a user that has a handle.
  unfoldable pub offer_registration : User → S → Outcome S
  offer_registration p s = elim (decode_blob blobs p.passkeys) [
    | none ↦ answered (internal s)
    | some stored ↦
        answered (offer std E box reg_cookie (wa.begin_registration (passkey_user p stored)) s)
  ]

  -- A handle for the user, if it has none.
  unfoldable pub ensure_handle : PasskeyEnv → User → S → Outcome S
  ensure_handle env p s =
      if p.webauthn_handle == ""
      then elim env.new_handle [
        | none ↦ answered (internal s)
        | some h ↦
            let (p', err, users) =
              upsert std E env.save env.now (record p { webauthn_handle = h }) s.users in
            elim err [
              | some e ↦ answered (internal (record s { users = users }))
              | none ↦ offer_registration p' (record s { users = users })
            ]
      ]
      else offer_registration p s

  -- `body` is the password of the request.
  unfoldable pub passkey_register_begin : PasskeyEnv → Option String → S → Outcome S
  passkey_register_begin env body s = with_self std E env.claims s.users s (λ found.
      deref found s (λ p.
        if p.password_hash == ""
        then answered (forbidden "passkeys require a local password account" s)
        else elim body [
          | none ↦ answered (bad_request parser_error s)
          | some password ↦
              if not (check_password bcrypt p password)
              then answered (forbidden "incorrect password" s)
              else elim (webauthn_service wa env.origin) [
                | rejected e ↦ answered (error 400 e s)
                | settled _ ↦ ensure_handle env p s
              ]
        ]))

  abbrev prefixed : Value → Value
  prefixed (text e) = formatted "passkey registration failed: " (e ∷ [])
  prefixed v = v

  -- The new credential of the body, on the user.
  unfoldable pub add_credential : PasskeyEnv → String → String → String → User → S → Outcome S
  add_credential env name body session p s = elim (decode_blob blobs p.passkeys) [
    | none ↦ answered (internal s)
    | some stored ↦ elim (wa.create_credential (passkey_user p stored) session body) [
      | rejected e ↦ answered (error 400 (prefixed e) s)
      | settled cred ↦
          let added : Stored = record {
            credential = cred;
            name = if name == "" then "passkey" else name;
            added_at = env.today;
          } in
          save_passkeys env p (stored ++ (added ∷ [])) s
    ]
  ]

  -- The user is read after the ceremony cookie is taken.
  unfoldable pub passkey_register_finish : PasskeyEnv → String → String → S → Outcome S
  passkey_register_finish env name body s = with_self std E env.claims s.users s (λ found.
      elim (webauthn_service wa env.origin) [
        | rejected e ↦ answered (error 400 e s)
        | settled _ ↦
            let (session, s') = take_webauthn_session std E box reg_cookie env.ceremony_cookie s in
            elim session [
              | none ↦ answered (error 400 (text "registration session expired; start again") s')
              | some sess ↦ deref found s' (λ p. add_credential env name body sess p s')
            ]
      ])

  -- `to_base64` is base64.RawURLEncoding.
  unfoldable pub passkey_rows : (String → String) → List Stored → List (List (String × Value))
  passkey_rows to_base64 [] = []
  passkey_rows to_base64 (s ∷ l) =
      (("id", text (to_base64 s.credential.id))
        ∷ ("name", text s.name)
        ∷ ("added_at", text s.added_at)
        ∷ [])
      ∷ passkey_rows to_base64 l

  unfoldable pub passkey_list : PasskeyEnv → (String → String) → S → Outcome S
  passkey_list env to_base64 s = with_self std E env.claims s.users s (λ found. deref found s (λ p.
      elim (decode_blob blobs p.passkeys) [
        | none ↦ answered (internal s)
        | some stored ↦ answered (
          none,
          record { status = 200; body = listing "passkeys" (passkey_rows to_base64 stored) },
          s,
        )
      ]))

  -- The loop of the removal: what is kept, and whether anything was removed.
  unfoldable pub without : String → List Stored → List Stored × Bool
  without id [] = ([], false)
  without id (s ∷ l) =
      let (kept', removed) = without id l in
      if s.credential.id == id then (kept', true) else (s ∷ kept', removed)

  unfoldable pub remove_passkey : PasskeyEnv → String → User → S → Outcome S
  remove_passkey env id p s = elim (decode_blob blobs p.passkeys) [
    | none ↦ answered (internal s)
    | some stored ↦
        let (kept', removed) = without id stored in
        if not removed
        then answered (not_found "passkey not found" s)
        else save_passkeys env p kept' s
  ]

  -- `id` is the parameter of the path once decoded, none where it does not decode.
  unfoldable pub passkey_delete : PasskeyEnv → Option String → Option String → S → Outcome S
  passkey_delete env body id s = with_self std E env.claims s.users s (λ found. elim body [
    | none ↦ answered (bad_request parser_error s)
    | some password ↦ deref found s (λ p.
        if not (check_password bcrypt p password)
        then answered (forbidden "incorrect password" s)
        else elim id [
          | none ↦ answered (error 400 (text "invalid passkey id") s)
          | some i ↦ remove_passkey env i p s
        ])
  ])
