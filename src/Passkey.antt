-- ===== src/Passkey.antt =====
-- The passkeys of a user, internal/core/passkey/passkey.go, and their endpoints,
-- internal/domain/auth/webauthn.go.
pub mod Ceremony
pub mod Register
pub mod Login
pub mod Sound
use secret_share.User.{User}
use secret_share.Secrets.Handler.{Result}
use secret_share.Prelude.{
  Bool, ◌≡◌, some, List, ◌==◌, String, ◌∷◌, Option, not, [], false, if◌then◌else◌,
}

-- A credential of go-webauthn: its id, the warning that its counter did not advance, all else.
pub record Credential : Type 0 where
  pub id : String
  pub clone_warning : Bool
  pub material : String

pub record Stored : Type 0 where
  pub credential : Credential
  pub name : String
  pub added_at : String

-- The user as go-webauthn sees it.
pub record PasskeyUser : Type 0 where
  pub handle : String
  pub name : String
  pub display : String
  pub creds : List Credential

-- encoding/json on the list, none for an error.
pub record BlobCodec : Type 0 where
  pub decode_json : String → Option (List Stored)
  pub encode : List Stored → Option String
  pub decode-encode :
      (l : List Stored) (raw : String)
      → encode l ≡ some raw
      → (decode_json raw ≡ some l) × ((raw == "") ≡ false)

unfoldable pub decode_blob : BlobCodec → String → Option (List Stored)
decode_blob blobs raw = if raw == "" then some [] else blobs.decode_json raw

unfoldable pub credentials_of : List Stored → List Credential
credentials_of [] = []
credentials_of (s ∷ l) = s.credential ∷ credentials_of l

-- WebAuthnDisplayName
unfoldable pub display_name : PasskeyUser → String
display_name u = if not (u.display == "") then u.display else u.name

-- The user of the console as a passkey user.
abbrev pub passkey_user : User → List Stored → PasskeyUser
passkey_user p stored = record {
  handle = p.webauthn_handle;
  name = p.email;
  display = p.name;
  creds = credentials_of stored;
}

-- go-webauthn for a relying party, by its host and origin. The text of an error is given; the
-- options for the browser and the data of a ceremony are texts.
pub record WebAuthn : Type 0 where
  -- net/url: the host name of an origin, none where it does not parse
  pub url_hostname : String → Option String
  -- webauthn.New, its error
  pub new_party : String → String → Option String
  pub begin_registration : PasskeyUser → Option (String × String)
  pub create_credential : PasskeyUser → String → String → Result Credential
  pub begin_login : Option (String × String)
  -- the user handle in the body of an assertion, none where it does not parse
  pub asserted_handle : String → Option String
  -- the check of the assertion against the credentials of the user
  pub validate_login : PasskeyUser → String → String → Option Credential

-- The sealing of a ceremony cookie: encoding/json and secretbox under the key of the server.
pub record CeremonyBox : Type 0 where
  pub seal_session : String → Option String
  pub open_session : String → Option String
