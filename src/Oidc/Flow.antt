-- ===== src/Oidc/Flow.antt =====
-- The round trip to the provider, Authorize and Exchange of internal/core/oidc/flow.go, with the
-- provider of internal/core/oidc/oidc.go.
-- The code's Config is `about` with the rules of admission; what discovery made is in the calls.
use secret_share.Secrets.Lifecycle.{answer}
use secret_share.Prelude.{
  false, ◌≡◌, eq_iff, inl, not, String, ◌∙◌, ◌==◌, true, none, arith, ◌||◌, [], ℕ, ◌∷◌, some, ap,
  Option, inr, if◌then◌else◌, ltb, Option-cases,
}
use secret_share.Oidc.State.{
  verify_state-sign_state, HasNoDots, verify_state-IsSigned, sign_state, StateCodec, StatePayload,
  IsSigned, verify_state,
}
use secret_share.Oidc.Allow.{IdClaims, OidcConfig}
use secret_share.Http.{text}
use secret_share.Failure.{Checked-cases, Checked, wrapping, passed, failing, errorf}
use secret_share.Config.Providers.{matches_id-has_no_dot, matches_id}

pub record Provider : Type 0 where
  pub id : String
  pub label : String
  pub issuer : String
  pub rules : OidcConfig

-- What the verified token says: its nonce, and its claims (none where they do not decode).
pub record IdToken : Type 0 where
  pub nonce : String
  pub claims : Option IdClaims

-- The calls of golang.org/x/oauth2 and go-oidc for a provider, by its id: the address of the login
-- page, the token for a code and a PKCE verifier (the id_token in it, if any; none for an error),
-- the verification of an id_token (none for an error).
pub record IdpCalls : Type 0 where
  pub auth_code_url : String → String → String → String → String
  pub exchange_code : String → String → String → Option (Option String)
  pub verify_token : String → String → Option IdToken

-- What Authorize draws from crypto/rand.
pub record Draws : Type 0 where
  pub for_state : String
  pub for_nonce : String
  pub for_verifier : String

module _ (codec : StateCodec) (idp : IdpCalls) where
  unfoldable pub pkce_challenge : String → String
  pkce_challenge verifier = codec.to_base64 (codec.sha256 verifier)

  -- The payload of a new round trip.
  unfoldable pub new_payload : Provider → Draws → StatePayload
  new_payload p draws = record {
    state = codec.to_hex draws.for_state;
    nonce = codec.to_hex draws.for_nonce;
    code_verifier = codec.to_base64 draws.for_verifier;
    provider = p.id;
  }

  -- The address to go to, and the cookie.
  unfoldable pub authorize : Provider → Draws → String → ℕ → String × String
  authorize p draws secret exp =
      let pay = new_payload p draws in
      (
        idp.auth_code_url p.id pay.state (pkce_challenge pay.code_verifier) pay.nonce,
        sign_state codec pay secret exp,
      )

  -- The token of the provider, for the payload of the cookie.
  unfoldable pub redeem : Provider → StatePayload → String → Checked IdClaims
  redeem p pay code = elim (idp.exchange_code p.id code pay.code_verifier) [
    | none ↦ failing (wrapping "token exchange: %w" [])
    | some answer ↦ elim answer [
      | none ↦ failing (errorf "id_token missing from token response" [])
      | some raw ↦
          if raw == ""
          then failing (errorf "id_token missing from token response" [])
          else elim (idp.verify_token p.id raw) [
            | none ↦ failing (wrapping "id_token verify: %w" [])
            | some token ↦
                if not (token.nonce == pay.nonce)
                then failing (errorf "nonce mismatch" [])
                else elim token.claims [
                  | none ↦ failing (wrapping "decode id_token claims: %w" [])
                  | some c ↦
                      if c.subject == ""
                      then failing (errorf "id_token has no sub claim" [])
                      else passed c
                ]
          ]
    ]
  ]

  unfoldable pub exchange : Provider → ℕ → String → String → String → String → Checked IdClaims
  exchange p now secret returned code cookie = elim (verify_state codec now cookie secret) [
    | failing e ↦ failing (wrapping "state cookie: %w" [])
    | passed pay ↦
        if pay.state == "" || not (pay.state == returned)
        then failing (errorf "state mismatch (CSRF guard)" [])
        else if not (pay.provider == p.id)
        then failing (
            errorf "provider mismatch (cookie %q, callback %q)"
              (text pay.provider ∷ text p.id ∷ []))
        else redeem p pay code
  ]

  -- What a successful exchange has shown of the callback.
  pub record IsRedeemed (p : Provider) (now : ℕ) (secret returned code cookie : String)
      (c : IdClaims) : Type 0 where
    pub pay : StatePayload
    pub is_signed : IsSigned codec now cookie secret pay
    pub same_state : (pay.state ≡ returned) × ((returned == "") ≡ false)
    pub same_provider : pay.provider ≡ p.id
    pub raw : String
    pub token : IdToken
    pub redeemed : idp.exchange_code p.id code pay.code_verifier ≡ some (some raw)
    pub verified : idp.verify_token p.id raw ≡ some token
    pub same_nonce : token.nonce ≡ pay.nonce
    pub claims : token.claims ≡ some c

  redeem_lem :
      (p : Provider) (pay : StatePayload) (code : String) (c : IdClaims)
      → redeem p pay code ≡ passed c
      → (raw : String) × (token : IdToken) × (idp.exchange_code p.id code pay.code_verifier
          ≡ some (some raw))
        × (idp.verify_token p.id raw ≡ some token)
        × (token.nonce ≡ pay.nonce)
        × (token.claims ≡ some c)
  unfolding redeem
  redeem_lem p pay code c h = elim (Option-cases (idp.exchange_code p.id code pay.code_verifier)) [
    | inl bad ↦ absurd (ground arith)
    | inr (answer, got) ↦ elim (Option-cases answer) [
      | inl bad ↦ absurd (ground arith)
      | inr (raw, there) ↦ elim (Option-cases (idp.verify_token p.id raw)) [
        | inl bad ↦ absurd (ground arith)
        | inr (token, good) ↦ elim (Option-cases token.claims) [
          | inl bad ↦ absurd (ground arith)
          | inr (c', decodes) ↦ (
            raw,
            token,
            got ∙ ap (λ o. some o) there,
            good,
            ground (arith, eq_iff token.nonce pay.nonce),
            ground arith,
          )
        ]
      ]
    ]
  ]

  -- An exchange passes only where the cookie was signed under the session secret and has not
  -- expired, was minted for this provider, and holds the state that the callback returns; the claims
  -- are those of a token that the provider gave for the code and the verifier of the cookie, that is
  -- verified for the provider, and that holds the nonce of the cookie.
  pub exchange_sound :
      (p : Provider) (now : ℕ) (secret returned code cookie : String) (c : IdClaims)
      → exchange p now secret returned code cookie ≡ passed c
      → IsRedeemed p now secret returned code cookie c
  unfolding exchange
  exchange_sound p now secret returned code cookie c h =
      elim (Checked-cases (verify_state codec now cookie secret)) [
        | inr (e, bad) ↦ absurd (ground arith)
        | inl (pay, good) ↦
            let (raw, token, got, verified, nonce, claims) =
              redeem_lem p pay code c (ground arith) in
            record {
              pay = pay;
              is_signed = verify_state-IsSigned codec now cookie secret pay good;
              same_state = (
                ground (arith, eq_iff pay.state returned),
                ground (arith, eq_iff pay.state returned),
              );
              same_provider = ground (arith, eq_iff pay.provider p.id);
              raw = raw;
              token = token;
              redeemed = got;
              verified = verified;
              same_nonce = nonce;
              claims = claims;
            }
      ]

  -- A round trip: the cookie of an authorization verifies, until it expires, to the payload that it
  -- was made with, for any provider with an id that the settings accept.
  pub verify_state-authorize :
      (p : Provider) (draws : Draws) (secret : String) (exp now : ℕ)
      → matches_id p.id ≡ true
      → ltb exp now ≡ false
      → verify_state codec now (authorize p draws secret exp).1 secret
        ≡ passed (new_payload p draws)
  unfolding authorize new_payload
  verify_state-authorize p draws secret exp now fits lasts =
      let pay = new_payload p draws in
      let clean : HasNoDots codec pay = record {
        in_state = codec.to_hex_dot draws.for_state;
        in_nonce = codec.to_hex_dot draws.for_nonce;
        in_verifier = codec.to_base64_dot draws.for_verifier;
        in_provider = matches_id-has_no_dot p.id fits;
      } in
      ground (arith, verify_state-sign_state codec pay secret exp now clean)
