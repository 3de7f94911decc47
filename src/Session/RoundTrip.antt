-- ===== src/Session/RoundTrip.antt =====
-- What a session cookie (internal/core/session/session.go) proves.
use secret_share.Session.{from_ctx, Codec, sign, accepted, refused, verify, Claims, session_expired}
use secret_share.Prelude.{
  eq_iff, List, inl, ◌≤◌, arith, ◌∷◌, eq_refl, refl, [], inr, Option-cases, String, some, ◌≡◌, ℕ,
  if◌then◌else◌, ltb,
}

module _ (codec : Codec) where
  -- A cookie that Sign gave verifies under the same secret up to its expiry, with the claims that
  -- were signed, and is refused afterwards.
  pub verify-sign :
      (c : Claims) (secret cookie : String) (exp now : ℕ)
      → sign codec c secret exp ≡ some cookie
      → verify codec now cookie secret
        ≡ (if ltb exp now then refused session_expired else accepted (record c { exp = exp }))
  unfolding sign verify
  verify-sign c secret cookie exp now h =
      let c' : Claims = record c { exp = exp } in
      elim (Option-cases (codec.encode c')) [
        | inl failed ↦ absurd (ground arith)
        | inr (body, encoded) ↦
            let m = codec.mac secret body in
            let (raw, b64, parsed) = codec.decode-encode c' body encoded in
            let whole : cookie ≡ codec.join_dot body (codec.to_hex m) = ground arith in
            ground
              (arith, whole, codec.split-join c' body m encoded, codec.from_hex-to_hex m, eq_refl m)
      ]

  -- A cookie that verifies has two parts, of which the second is the MAC of the first under the
  -- secret, decodes to the claims, and has not expired.
  pub record IsGenuine (now : ℕ) (cookie secret : String) (c : Claims) : Type 0 where
    pub body : String
    pub signature : String
    pub split : codec.split_dots cookie ≡ body ∷ signature ∷ []
    pub signed : codec.from_hex signature ≡ some (codec.mac secret body)
    pub payload :
        (raw : String) × (codec.decode_base64 body ≡ some raw) × (codec.decode_json raw ≡ some c)
    pub fresh : now ≤ c.exp

  -- The claims of a request are those of a cookie of two parts, of which the second is the MAC of
  -- the first under the secret, that decodes to them and has not expired.
  pub from_ctx-IsGenuine :
      (now : ℕ) (cookie secret : String) (c : Claims)
      → from_ctx codec now cookie secret ≡ some c
      → IsGenuine now cookie secret c
  unfolding from_ctx
  from_ctx-IsGenuine now cookie secret c h = parts (codec.split_dots cookie) refl
    where
      parts : (l : List String) → codec.split_dots cookie ≡ l → IsGenuine now cookie secret c
      parts (body ∷ sig ∷ []) e = elim (Option-cases (codec.from_hex sig)) [
        | inl unread ↦ unfold verify in absurd (ground (arith, e))
        | inr (got, read) ↦ elim (Option-cases (codec.decode_base64 body)) [
          | inl no_base64 ↦ unfold verify in absurd (ground (arith, e))
          | inr (raw, b64) ↦ elim (Option-cases (codec.decode_json raw)) [
            | inl no_json ↦ unfold verify in absurd (ground (arith, e))
            | inr (claims, parsed) ↦
                unfold verify in
                record {
                  body = body;
                  signature = sig;
                  split = e;
                  signed = ground (arith, e, eq_iff (codec.mac secret body) got);
                  payload = (raw, b64, ground (arith, e));
                  fresh = ground (arith, e);
                }
          ]
        ]
      ]
      parts l e = unfold verify in absurd (ground (arith, e))
