-- ===== src/Passkey/Login.antt =====
-- The sign-in by a passkey, internal/domain/auth/webauthn.go.
use secret_share.Users.Store.{UserStore, upsert, list_users}
use secret_share.User.{User}
use secret_share.Std.{Std}
use secret_share.Session.{sign, Claims, Codec}
use secret_share.Secrets.Handler.{rejected, settled}
use secret_share.Secret.{Time}
use secret_share.Prelude.{
  Bool, true, not, none, ◌∷◌, List, ◌&&◌, Option, String, ◌==◌, ℕ, [], some, if◌then◌else◌,
}
use secret_share.Passkey.Ceremony.{
  login_cookie, PasskeyState, offer, webauthn_service, take_webauthn_session,
}
use secret_share.Passkey.{
  WebAuthn, Stored, passkey_user, Credential, BlobCodec, CeremonyBox, decode_blob,
}
use secret_share.Http.{error, text, Reply, unauthorized, flag, internal, ok}
use secret_share.Bolt.{Engine, Error}
use mathlib.Core.Option

-- The settings of the login, the requests's Origin header and ceremony cookie, the clock, the end of
-- the session in Unix seconds, and the commit of the write.
pub record PasskeyLoginEnv : Type 0 where
  pub enabled : Bool
  pub local_login : Bool
  pub session_secret : String
  pub origin : String
  pub ceremony_cookie : String
  pub login : Time
  pub expiry : ℕ
  pub save : Option Error

abbrev pub passkey_login_available : PasskeyLoginEnv → Bool
passkey_login_available env = env.enabled && env.local_login

-- The used credential in the place of the first stored one with its id.
unfoldable pub replace_credential : Credential → List Stored → List Stored
replace_credential used [] = []
replace_credential used (s ∷ l) =
    let rest = replace_credential used l in
    if s.credential.id == used.id then record s { credential = used } ∷ l else s ∷ rest

-- The loop of `resolve` over the users: the owner of the handle with its credentials; none where
-- nobody owns it, where the owner is disabled, or where its blob does not decode.
unfoldable pub resolve_owner : BlobCodec → String → List User → Option (User × List Stored)
resolve_owner blobs handle [] = none
resolve_owner blobs handle (p ∷ ps) =
    let rest = resolve_owner blobs handle ps in
    if not (p.webauthn_handle == "") && p.webauthn_handle == handle
    then (if not p.enabled then none else Option.map (λ l. (p, l)) (decode_blob blobs p.passkeys))
    else rest

module _ (std : Std) (E : Engine) (codec : Codec) (blobs : BlobCodec) (wa : WebAuthn)
    (box : CeremonyBox) where
  abbrev pub S : Type 0
  S = PasskeyState std E

  -- FinishLogin with `resolve`: the user that it has matched, and the credential that is used.
  unfoldable pub finish_login : String → String → UserStore std E → Option (User × Credential)
  finish_login session body users = elim (wa.asserted_handle body) [
    | none ↦ none
    | some handle ↦
        let (ps, err) = list_users std E users in
        elim err [
          | some e ↦ none
          | none ↦ elim (resolve_owner blobs handle ps) [
            | none ↦ none
            | some (p, known) ↦
                Option.map (λ cred. (p, cred))
                  (wa.validate_login (passkey_user p known) session body)
          ]
        ]
  ]

  -- The blob with the used credential, as it was where it does not decode or encode. The last
  -- login is set only where it decodes.
  unfoldable pub persist_passkey_use :
      PasskeyLoginEnv → User → Credential → UserStore std E → User × UserStore std E
  persist_passkey_use env p used users = elim (decode_blob blobs p.passkeys) [
    | none ↦ (p, users)
    | some known ↦
        let raw : String = elim (blobs.encode (replace_credential used known)) [
          | none ↦ p.passkeys
          | some r ↦ r
        ] in
        let (p', _, users') =
          upsert std E env.save env.login
            (record p { passkeys = raw; last_login_at = some env.login }) users in
        (p', users')
  ]

  unfoldable pub passkey_login_begin : PasskeyLoginEnv → S → Reply S
  passkey_login_begin env s =
      if not (passkey_login_available env)
      then error 501 (text "passkey login not available") s
      else elim (webauthn_service wa env.origin) [
        | rejected e ↦ error 400 e s
        | settled _ ↦ offer std E box login_cookie wa.begin_login s
      ]

  -- The session of the owner of the passkey.
  unfoldable pub mint_passkey_session : PasskeyLoginEnv → User → Credential → S → Reply S
  mint_passkey_session env p used s =
      let (p', users) = persist_passkey_use env p used s.users in
      let s' : S = record s { users = users } in
      let claims : Claims = record {
        subject = p'.email;
        email = p'.email;
        name = p'.name;
        groups = [];
        role = p'.role;
        exp = 0;
      } in
      elim (sign codec claims env.session_secret env.expiry) [
        | none ↦ internal s'
        | some cookie ↦ ok (("ok", flag true) ∷ []) (record s' { cookie = some cookie })
      ]

  -- Over the result of the ceremony.
  unfoldable pub admit_passkey : PasskeyLoginEnv → Option (User × Credential) → S → Reply S
  admit_passkey env none s = unauthorized "passkey authentication failed" s
  admit_passkey env (some (p, cred)) s =
      if cred.clone_warning
      then unauthorized "passkey authentication failed" s
      else mint_passkey_session env p cred s

  unfoldable pub passkey_login_finish : PasskeyLoginEnv → String → S → Reply S
  passkey_login_finish env body s =
      if not (passkey_login_available env)
      then error 501 (text "passkey login not available") s
      else elim (webauthn_service wa env.origin) [
        | rejected e ↦ error 400 e s
        | settled _ ↦
            let (session, s') =
              take_webauthn_session std E box login_cookie env.ceremony_cookie s in
            elim session [
              | none ↦ error 400 (text "login session expired; start again") s'
              | some sess ↦ admit_passkey env (finish_login sess body s'.users) s'
            ]
      ]
