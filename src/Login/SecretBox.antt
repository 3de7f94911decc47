-- ===== src/Login/SecretBox.antt =====
-- The sealing of the second factor's secrets at rest, internal/core/secretbox/secretbox.go. Texts
-- stand for bytes.
use secret_share.Prelude.{◌≡◌, String, Option, arith, some, Bool, true, none, [], if◌then◌else◌}
use secret_share.Failure.{unless, Checked, passed, errorf, failing, Failure, wrapping}
use Prim.Native.String.{◌++◌}

-- SHA-256, AES in GCM and base64, of the standard library; `none` is an error. `split` cuts the
-- nonce off, at the size that the mode has, and fails where there are fewer bytes.
pub record Aead : Type 0 where
  pub sha256 : String → String
  pub takes_key : String → Bool
  pub is_nonce : String → Bool
  pub seal_bytes : String → String → String → String
  pub open_bytes : String → String → String → Option String
  pub encode : String → String
  pub decode : String → Option String
  pub split : String → Option (String × String)
  pub takes-sha256 : (secret : String) → takes_key (sha256 secret) ≡ true
  pub open-seal :
      (key nonce text : String) → open_bytes key nonce (seal_bytes key nonce text) ≡ some text
  pub decode-encode : (raw : String) → decode (encode raw) ≡ some raw
  pub split-append :
      (nonce ct : String) → is_nonce nonce ≡ true → split (nonce ++ ct) ≡ some (nonce, ct)

module _ (aead : Aead) where
  open aead use {sha256, takes_key, is_nonce, seal_bytes, open_bytes, encode, decode, split}

  unfoldable pub derive_key : String → String
  derive_key secret = sha256 secret

  -- newGCM, for its error.
  abbrev new_gcm : String → Option Failure
  new_gcm key = if takes_key key then none else some (wrapping "aes: %w" [])

  -- `nonce` is what crypto/rand gave.
  unfoldable pub seal : String → Option String → String → Checked String
  seal key nonce plaintext = unless (new_gcm key) (elim nonce [
    | none ↦ failing (wrapping "nonce: %w" [])
    | some n ↦ passed (encode (n ++ seal_bytes key n plaintext))
  ])

  unfoldable pub open_sealed : String → String → Checked String
  open_sealed key b64 = unless (new_gcm key) (elim (decode b64) [
    | none ↦ failing (wrapping "decode: %w" [])
    | some raw ↦ elim (split raw) [
      | none ↦ failing (errorf "ciphertext too short" [])
      | some (nonce, ct) ↦ elim (open_bytes key nonce ct) [
        | none ↦ failing (wrapping "open: %w" [])
        | some pt ↦ passed pt
      ]
    ]
  ])

  -- What is sealed under a derived key opens under it to the same text, whatever the nonce.
  pub open_sealed-seal :
      (secret plaintext nonce : String)
      → is_nonce nonce ≡ true
      → (b64 : String) × (seal (derive_key secret) (some nonce) plaintext ≡ passed b64)
        × (open_sealed (derive_key secret) b64 ≡ passed plaintext)
  unfolding seal open_sealed derive_key unless
  open_sealed-seal secret plaintext nonce fits =
      let key = sha256 secret in
      let ct = seal_bytes key nonce plaintext in
      let fine = aead.takes-sha256 secret in
      (
        encode (nonce ++ ct),
        ground (arith, fine),
        ground (
          arith,
          fine,
          aead.decode-encode (nonce ++ ct),
          aead.split-append nonce ct fits,
          aead.open-seal key nonce plaintext,
        ),
      )
