-- ===== src/Tests/Passkey.antt =====
-- Tests of the sign-in by a passkey.
use secret_share.Users.Store.{upsert, list_users, UserStore, storable, key, collect, stamp}
use secret_share.User.{User}
use secret_share.Tests.Fixtures.{one_pair, root_codec, plain, root_user}
use secret_share.Session.{sign}
use secret_share.Secrets.Handler.{settled}
use secret_share.Prelude.{arith, some, ◌≡◌, ◌∷◌, refl, [], none, true, false}
use secret_share.Passkey.Sound.{IsPasskeyLogin-sound, IsPasskeyLogin}
use secret_share.Passkey.Login.{
  mint_passkey_session, PasskeyLoginEnv, admit_passkey, finish_login, persist_passkey_use,
  resolve_owner, passkey_login_finish,
}
use secret_share.Passkey.Ceremony.{PasskeyState, webauthn_service, take_webauthn_session}
use secret_share.Passkey.{decode_blob, BlobCodec, Stored, CeremonyBox, Credential, WebAuthn}
use secret_share.Bolt.Memory.{memory}
use secret_share.Bolt.{json, opened}

abbrev key_credential : Credential
key_credential = record { id = "cred"; clone_warning = false; material = "" }

abbrev key_stored : Stored
key_stored = record { credential = key_credential; name = "passkey"; added_at = "" }

-- One list is read, and none is written.
abbrev one_blob : BlobCodec
one_blob = record {
  decode_json = λ raw. some (key_stored ∷ []);
  encode = λ l. none;
  decode-encode = λ l raw h. absurd (ground arith);
}

abbrev authenticator : WebAuthn
authenticator = record {
  url_hostname = λ origin. some "share.example";
  new_party = λ host origin. none;
  begin_registration = λ u. none;
  create_credential = λ u session body. settled key_credential;
  begin_login = some ("options", "session");
  asserted_handle = λ body. some body;
  validate_login = λ u session body. some key_credential;
}

abbrev plain_box : CeremonyBox
plain_box = record { seal_session = λ s. some s; open_session = λ s. some s }

abbrev login_env : PasskeyLoginEnv
login_env = record {
  enabled = true;
  local_login = true;
  session_secret = "key";
  origin = "https://share.example";
  ceremony_cookie = "session";
  login = 20;
  expiry = 1000;
  save = none;
}

abbrev key_user : User
key_user = record root_user { webauthn_handle = "handle"; passkeys = "blob" }

unfoldable key_users : UserStore plain memory
unfolding memory
key_users = opened (some (one_pair "root@x" (json key_user)))

abbrev key_state : PasskeyState plain memory
key_state = record { users = key_users; cookie = none; ceremony = none }

passkey_signs_in :
    (passkey_login_finish plain memory root_codec one_blob authenticator plain_box login_env
      "handle" key_state).2.cookie
    ≡ some "key"
unfolding passkey_login_finish webauthn_service take_webauthn_session finish_login list_users
    collect resolve_owner decode_blob admit_passkey mint_passkey_session persist_passkey_use upsert
    key stamp storable sign root_codec memory key_users
passkey_signs_in = refl

IsPasskeyLogin-sound_example :
    IsPasskeyLogin plain memory root_codec one_blob authenticator plain_box login_env "handle"
      key_users "key"
IsPasskeyLogin-sound_example =
    IsPasskeyLogin-sound plain memory root_codec one_blob authenticator plain_box login_env "handle"
      "key" key_state refl passkey_signs_in
