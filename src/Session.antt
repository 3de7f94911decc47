-- ===== src/Session.antt =====
-- The signed session cookie, internal/core/session/session.go.
pub mod RoundTrip
pub mod Cookie
use secret_share.Prelude.{
  ℕ, ◌∷◌, ◌==◌, ◌≡◌, List, [], String, Option, none, some, ltb, if◌then◌else◌,
}
use mathlib.Core.Option

pub record Claims : Type 0 where
  pub subject : String
  pub email : String
  pub name : String
  pub groups : List String
  pub role : String
  -- Unix seconds
  pub exp : ℕ

-- What Sign and Verify call of the standard library: JSON in unpadded base64url, HMAC-SHA256,
-- hexadecimal, strings.Split at dots. `none` is an error.
pub record Codec : Type 0 where
  pub encode : Claims → Option String
  pub decode_base64 : String → Option String
  pub decode_json : String → Option Claims
  pub mac : String → String → String
  pub to_hex : String → String
  pub from_hex : String → Option String
  pub split_dots : String → List String
  pub join_dot : String → String → String
  pub decode-encode :
      (c : Claims) (body : String)
      → encode c ≡ some body
      → (raw : String) × (decode_base64 body ≡ some raw) × (decode_json raw ≡ some c)
  pub from_hex-to_hex : (m : String) → from_hex (to_hex m) ≡ some m
  -- Neither alphabet has a dot.
  pub split-join :
      (c : Claims) (body m : String)
      → encode c ≡ some body
      → split_dots (join_dot body (to_hex m)) ≡ body ∷ to_hex m ∷ []

-- Why a cookie is refused.
pub data Refusal : Type 0 where
  malformed bad_signature bad_payload bad_claims session_expired : Refusal

pub data Verified : Type 0 where
  accepted : Claims → Verified
  refused : Refusal → Verified

module _ (codec : Codec) where
  open codec use {encode, decode_base64, decode_json, mac, to_hex, from_hex, split_dots, join_dot}

  -- `none` is an error of json.Marshal.
  unfoldable pub sign : Claims → String → ℕ → Option String
  sign c secret exp =
      Option.map (λ b64. join_dot b64 (to_hex (mac secret b64))) (encode (record c { exp = exp }))

  check_expiry : ℕ → Claims → Verified
  check_expiry now c = if ltb c.exp now then refused session_expired else accepted c

  check_payload : ℕ → String → Verified
  check_payload now body = elim (decode_base64 body) [
    | none ↦ refused bad_payload
    | some raw ↦ elim (decode_json raw) [ none ↦ refused bad_claims | some c ↦ check_expiry now c ]
  ]

  check_parts : ℕ → String → List String → Verified
  check_parts now secret (body ∷ sig ∷ []) = elim (from_hex sig) [
    | none ↦ refused bad_signature
    | some got ↦ if mac secret body == got then check_payload now body else refused bad_signature
  ]
  check_parts now secret _ = refused malformed

  -- `now` is time.Now().Unix().
  unfoldable pub verify : ℕ → String → String → Verified
  unfolding check_parts check_payload check_expiry
  verify now cookie secret = check_parts now secret (split_dots cookie)

  -- The claims of the request's cookie, if it has a good one.
  unfoldable pub from_ctx : ℕ → String → String → Option Claims
  from_ctx now cookie secret =
      if cookie == ""
      then none
      else elim (verify now cookie secret) [ accepted c ↦ some c | refused why ↦ none ]
