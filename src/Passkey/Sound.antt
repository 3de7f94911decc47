-- ===== src/Passkey/Sound.antt =====
-- Who signs in by a passkey (internal/domain/auth/webauthn.go).
use secret_share.Users.Laws.{upsert_keeps}
use secret_share.Passkey.Ceremony.{take_webauthn_session, PasskeyState}
use secret_share.Users.Store.{UserStore, list_users, UserBytes, collect}
use secret_share.User.{normalize_email, User}
use secret_share.Std.{Std}
use secret_share.Session.{Claims, sign, Codec}
use secret_share.Prelude.{
  refl, sym, ap, ◌∙◌, eq_refl, ◌==◌, [], inl, String, ◌&&◌, arith, false, ◌∷◌, true, inr, not, List,
  ◌≡◌, some, eq_iff, none, HasDistinctKeys, lookup, Option-cases, Bool-cases,
}
use secret_share.Passkey.Login.{
  replace_credential, passkey_login_finish, mint_passkey_session, admit_passkey, finish_login,
  persist_passkey_use, PasskeyLoginEnv, resolve_owner,
}
use secret_share.Passkey.{
  Credential, passkey_user, CeremonyBox, decode_blob, BlobCodec, Stored, WebAuthn,
}
use secret_share.Bolt.{opened, closed, raw_at, Engine, json, junk}
use mathlib.Core.Path.{subst}

module _ (std : Std) (E : Engine) (codec : Codec) (blobs : BlobCodec) (wa : WebAuthn)
    (box : CeremonyBox) where
  -- The owner of a handle is enabled, and its blob decodes.
  abbrev pub IsOwner : String → User → List Stored → Type 0
  IsOwner handle p l =
      (p.webauthn_handle ≡ handle)
      × ((handle == "") ≡ false)
      × (p.enabled ≡ true)
      × (decode_blob blobs p.passkeys ≡ some l)

  -- The owner of a handle among the collected users, and the key that it stands under.
  IsOwner-of_entries :
      (handle : String) (l : List (String × UserBytes)) (p : User) (creds : List Stored)
      → HasDistinctKeys l
      → (collect l).1 ≡ none
      → resolve_owner blobs handle (collect l).0 ≡ some (p, creds)
      → (k : String) × (lookup k l ≡ some (json p)) × IsOwner handle p creds
  unfolding collect resolve_owner
  IsOwner-of_entries handle [] p creds d e h = cc
  IsOwner-of_entries handle ((k, junk) ∷ rest) p creds d e h = cc
  IsOwner-of_entries handle ((k, json q) ∷ rest) p creds d e h =
      elim (Bool-cases (not (q.webauthn_handle == "") && q.webauthn_handle == handle)) [
        | inr other ↦
            let (k', at, owner) = IsOwner-of_entries handle rest p creds d.1 e (ground arith) in
            (k', ground (arith, eq_iff k k'), owner)
        | inl this ↦ elim (Option-cases (decode_blob blobs q.passkeys)) [
          | inl bad ↦ absurd (ground arith)
          | inr (l, good) ↦
              let same : q ≡ p = ground arith in
              let creds_same : l ≡ creds = ground arith in
              (
                k,
                ground (arith, eq_refl k, same),
                (
                  ground (arith, eq_iff q.webauthn_handle handle, same),
                  ground (arith, eq_iff q.webauthn_handle handle),
                  ground (arith, same),
                  ground (arith, same, creds_same),
                ),
              )
        ]
      ]

  -- The owner of a handle in a store is stored, and is enabled.
  IsOwner-of_store :
      (handle : String) (s : UserStore std E) (p : User) (creds : List Stored)
      → (list_users std E s).1 ≡ none
      → resolve_owner blobs handle (list_users std E s).0 ≡ some (p, creds)
      → (k : String) × (raw_at E s k ≡ some (json p)) × IsOwner handle p creds
  unfolding list_users raw_at resolve_owner
  IsOwner-of_store handle closed p creds e h = cc
  IsOwner-of_store handle (opened none) p creds e h = cc
  IsOwner-of_store handle (opened (some b)) p creds e h =
      let (k, at, owner) =
        IsOwner-of_entries handle (E.entries b) p creds (E.entries-HasDistinctKeys b) e h in
      (k, E.get-entries b k ∙ at, owner)

  -- What a sign-in by a passkey has shown.
  pub record IsPasskeyLogin (env : PasskeyLoginEnv) (body : String) (users : UserStore std E)
      (cookie : String) : Type 0 where
    pub allowed : (env.enabled ≡ true) × (env.local_login ≡ true)
    pub session : String
    pub ceremony : box.open_session env.ceremony_cookie ≡ some session
    pub handle : String
    pub asserted : wa.asserted_handle body ≡ some handle
    pub owner : User
    pub key : String
    pub is_stored : raw_at E users key ≡ some (json owner)
    pub creds : List Stored
    pub is_owner : IsOwner handle owner creds
    pub used : Credential
    pub validated : wa.validate_login (passkey_user owner creds) session body ≡ some used
    pub not_cloned : used.clone_warning ≡ false
    -- the cookie is a session under the email, the name and the role of the owner
    pub claims : Claims
    pub of_owner :
        (normalize_email std claims.email ≡ normalize_email std owner.email)
        × (claims.subject ≡ claims.email)
        × (claims.name ≡ owner.name)
        × (claims.role ≡ owner.role)
        × (claims.groups ≡ [])
    pub minted : sign codec claims env.session_secret env.expiry ≡ some cookie

  persist_keeps :
      (env : PasskeyLoginEnv) (p : User) (used : Credential) (users : UserStore std E)
      → let q = (persist_passkey_use std E codec blobs wa box env p used users).0 in
        (normalize_email std q.email ≡ normalize_email std p.email)
        × (q.name ≡ p.name)
        × (q.role ≡ p.role)
  unfolding persist_passkey_use
  persist_keeps env p used users = elim (Option-cases (decode_blob blobs p.passkeys)) [
    | inl bad ↦ (ground arith, ground arith, ground arith)
    | inr (known, good) ↦
        let raw : String = elim (blobs.encode (replace_credential used known)) [
          | none ↦ p.passkeys
          | some r ↦ r
        ] in
        let kept_fields =
          upsert_keeps std E env.save env.login
            (record p { passkeys = raw; last_login_at = some env.login }) users in
        (ground (arith, kept_fields), ground (arith, kept_fields), ground (arith, kept_fields))
  ]

  -- What the ceremony has found.
  finish_login_lem :
      (session body : String) (s : UserStore std E) (p : User) (used : Credential)
      → finish_login std E codec blobs wa box session body s ≡ some (p, used)
      → (handle : String) × (creds : List Stored) × (wa.asserted_handle body ≡ some handle)
        × (wa.validate_login (passkey_user p creds) session body ≡ some used)
        × ((k : String) × (raw_at E s k ≡ some (json p)) × IsOwner handle p creds)
  unfolding finish_login
  finish_login_lem session body s p used h = elim (Option-cases (wa.asserted_handle body)) [
    | inl bad ↦ absurd (ground arith)
    | inr (handle, there) ↦ elim (Option-cases (list_users std E s).1) [
      | inr (e, bad) ↦ absurd (ground arith)
      | inl fine ↦ elim (Option-cases (resolve_owner blobs handle (list_users std E s).0)) [
        | inl nobody ↦ absurd (ground arith)
        | inr ((q, creds), found) ↦
            elim (Option-cases (wa.validate_login (passkey_user q creds) session body)) [
              | inl bad ↦ absurd (ground arith)
              | inr (cred, good) ↦
                  let same : q ≡ p = ground arith in
                  let this : cred ≡ used = ground arith in
                  (
                    handle,
                    creds,
                    there,
                    ap (λ x. wa.validate_login (passkey_user x creds) session body) (sym same)
                        ∙ good
                        ∙ ap (λ c. some c) this,
                    subst
                        (λ x.
                          (k : String) × (raw_at E s k ≡ some (json x)) × IsOwner handle x creds)
                        same (IsOwner-of_store handle s q creds fine found),
                  )
            ]
      ]
    ]
  ]

  -- A sign-in by a passkey sets a session cookie only where the local login is on, for the
  -- ceremony that the sealed cookie holds, and for a stored and enabled user that owns the handle
  -- of the assertion; the assertion validates against the credentials of that user, and the counter
  -- of the one that was used gives no warning of a clone. The session is under the email, up to its
  -- normal form, the name and the role of that user.
  pub IsPasskeyLogin-sound :
      (env : PasskeyLoginEnv) (body cookie : String) (s : PasskeyState std E)
      → s.cookie ≡ none
      → (passkey_login_finish std E codec blobs wa box env body s).2.cookie ≡ some cookie
      → IsPasskeyLogin env body s.users cookie
  unfolding passkey_login_finish take_webauthn_session admit_passkey mint_passkey_session
  IsPasskeyLogin-sound env body cookie s fresh_start h =
      elim (Option-cases (box.open_session env.ceremony_cookie)) [
        | inl bad ↦ absurd (ground arith)
        | inr (session, opens) ↦
            elim (Option-cases (finish_login std E codec blobs wa box session body s.users)) [
              | inl nobody ↦ absurd (ground arith)
              | inr ((p, used), found) ↦
                  let (handle, creds, there, valid', (key, at, owner)) =
                    finish_login_lem session body s.users p used found in
                  let u = (persist_passkey_use std E codec blobs wa box env p used s.users).0 in
                  record {
                    allowed = (ground arith, ground arith);
                    session = session;
                    ceremony = opens;
                    handle = handle;
                    asserted = there;
                    owner = p;
                    key = key;
                    is_stored = at;
                    creds = creds;
                    is_owner = owner;
                    used = used;
                    validated = valid';
                    not_cloned = ground arith;
                    claims = record {
                      subject = u.email;
                      email = u.email;
                      name = u.name;
                      groups = [];
                      role = u.role;
                      exp = 0;
                    };
                    of_owner =
                        let (mail, name, role) = persist_keeps env p used s.users in
                        (mail, refl, name, role, refl);
                    minted = ground arith;
                  }
            ]
      ]
