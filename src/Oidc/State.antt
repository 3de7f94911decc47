-- ===== src/Oidc/State.antt =====
-- The signed state cookie of a sign-in, signState and verifyState of internal/core/oidc/flow.go.
use secret_share.Prelude.{
  ◌∙◌, false, arith, ap, inl, refl, eq_refl, inr, eq_iff, split-join_dots, split-part, Option-cases,
  ltb, ◌≡◌, Option, ℕ, ◌==◌, ◌∷◌, List, some, true, none, [], String, has_no_dot, split_dots,
  join_dots, ltb_ℤ, ℤ, pos, if◌then◌else◌, ◌<>◌,
}
use secret_share.Failure.{passed-inj, passed, errorf, failing, Checked}
use mathlib.Core.Path.{subst}

pub record StatePayload : Type 0 where
  pub state : String
  pub nonce : String
  pub code_verifier : String
  pub provider : String

-- HMAC-SHA256, hexadecimal, decimal numbers (none for an error), crypto/sha256 with unpadded
-- base64url. Neither digits nor hexadecimal digits have a dot.
pub record StateCodec : Type 0 where
  pub mac : String → String → String
  pub to_hex : String → String
  pub from_hex : String → Option String
  pub format_int : ℕ → String
  pub parse_int : String → Option ℤ
  pub to_base64 : String → String
  pub sha256 : String → String
  pub from_hex-to_hex :
      (secret body : String) → from_hex (to_hex (mac secret body)) ≡ some (mac secret body)
  pub parse_int-format_int : (n : ℕ) → parse_int (format_int n) ≡ some (pos n)
  pub to_hex_dot : (m : String) → has_no_dot (to_hex m) ≡ true
  pub format_int_dot : (n : ℕ) → has_no_dot (format_int n) ≡ true
  pub to_base64_dot : (m : String) → has_no_dot (to_base64 m) ≡ true

module _ (codec : StateCodec) where
  open codec use {mac, to_hex, from_hex, format_int, parse_int}

  abbrev pub state_body : StatePayload → ℕ → String
  state_body p exp =
      join_dots (p.state ∷ p.nonce ∷ p.code_verifier ∷ p.provider ∷ format_int exp ∷ [])

  -- `exp` is the expiry in Unix seconds.
  unfoldable pub sign_state : StatePayload → String → ℕ → String
  sign_state p secret exp = let body = state_body p exp in body <> ("." <> to_hex (mac secret body))

  -- After the signature.
  unfoldable pub check_state_expiry : ℕ → StatePayload → String → Checked StatePayload
  check_state_expiry now p exp = elim (parse_int exp) [
    | none ↦ failing (errorf "bad expiry" [])
    | some e ↦
        if ltb_ℤ e (pos now)
        then failing (errorf "expired (sit too long on IdP page?)" [])
        else passed p
  ]

  unfoldable pub check_state_parts : ℕ → String → List String → Checked StatePayload
  check_state_parts now secret (st ∷ nonce ∷ verifier ∷ provider ∷ exp ∷ sig ∷ []) =
      let body = join_dots (st ∷ nonce ∷ verifier ∷ provider ∷ exp ∷ []) in
      let p : StatePayload = record {
        state = st;
        nonce = nonce;
        code_verifier = verifier;
        provider = provider;
      } in
      let rest = check_state_expiry now p exp in
      elim (from_hex sig) [
        | none ↦ failing (errorf "bad signature" [])
        | some got ↦ if mac secret body == got then rest else failing (errorf "bad signature" [])
      ]
  check_state_parts now secret _ = failing (errorf "malformed cookie" [])

  -- `now` is time.Now().Unix().
  unfoldable pub verify_state : ℕ → String → String → Checked StatePayload
  verify_state now cookie secret = check_state_parts now secret (split_dots cookie)

  -- Fields that do not run into each other.
  pub record HasNoDots (p : StatePayload) : Type 0 where
    pub in_state : has_no_dot p.state ≡ true
    pub in_nonce : has_no_dot p.nonce ≡ true
    pub in_verifier : has_no_dot p.code_verifier ≡ true
    pub in_provider : has_no_dot p.provider ≡ true

  abbrev parts_of : StatePayload → String → ℕ → List String
  parts_of p secret exp =
      p.state
      ∷ p.nonce
      ∷ p.code_verifier
      ∷ p.provider
      ∷ format_int exp
      ∷ to_hex (mac secret (state_body p exp))
      ∷ []

  split-sign_state :
      (p : StatePayload) (secret : String) (exp : ℕ)
      → HasNoDots p
      → split_dots (sign_state p secret exp) ≡ parts_of p secret exp
  unfolding sign_state
  split-sign_state p secret exp clean =
      let sig = to_hex (mac secret (state_body p exp)) in
      split-join_dots p.state (p.nonce ∷ p.code_verifier ∷ p.provider ∷ format_int exp ∷ []) sig
        clean.in_state
        (clean.in_nonce, (clean.in_verifier, (clean.in_provider, (codec.format_int_dot exp, tt))))
      ∙ ap (λ l. p.state ∷ p.nonce ∷ p.code_verifier ∷ p.provider ∷ format_int exp ∷ l)
          (split-part sig (codec.to_hex_dot (mac secret (state_body p exp))))

  -- A state cookie whose fields have no dots verifies under the key it was signed with, until it
  -- expires, and gives the fields back; after that it is refused as expired.
  pub verify_state-sign_state :
      (p : StatePayload) (secret : String) (exp now : ℕ)
      → HasNoDots p
      → verify_state now (sign_state p secret exp) secret ≡ (
          if ltb exp now
          then failing (errorf "expired (sit too long on IdP page?)" [])
          else passed p)
  unfolding verify_state check_state_parts check_state_expiry
  verify_state-sign_state p secret exp now clean =
      let body = state_body p exp in
      ap (check_state_parts now secret) (split-sign_state p secret exp clean)
      ∙ ground (
        arith,
        codec.from_hex-to_hex secret body,
        codec.parse_int-format_int exp,
        eq_refl (mac secret body),
      )

  -- What a cookie that verifies has shown: the six parts, the last of which is the signature of the
  -- others under the key, and a time that is not over.
  pub record IsSigned (now : ℕ) (cookie secret : String) (p : StatePayload) : Type 0 where
    pub expiry : String
    pub signature : String
    pub parts :
        split_dots cookie
        ≡ p.state ∷ p.nonce ∷ p.code_verifier ∷ p.provider ∷ expiry ∷ signature ∷ []
    pub signed :
        from_hex signature
        ≡ some (
            mac secret (join_dots (p.state ∷ p.nonce ∷ p.code_verifier ∷ p.provider ∷ expiry ∷ [])))
    pub lasts : (e : ℤ) × (parse_int expiry ≡ some e) × (ltb_ℤ e (pos now) ≡ false)

  check_state_parts_lem :
      (now : ℕ) (cookie secret : String) (l : List String) (p : StatePayload)
      → split_dots cookie ≡ l
      → check_state_parts now secret l ≡ passed p
      → IsSigned now cookie secret p
  unfolding check_state_parts check_state_expiry
  check_state_parts_lem now cookie secret (st ∷ nonce ∷ verifier ∷ provider ∷ exp ∷ sig ∷ []) p e
        h =
      let body = join_dots (st ∷ nonce ∷ verifier ∷ provider ∷ exp ∷ []) in
      elim (Option-cases (from_hex sig)) [
        | inl bad ↦ absurd (ground arith)
        | inr (got, good) ↦ elim (Option-cases (parse_int exp)) [
          | inl bad ↦ absurd (ground arith)
          | inr (until, reads) ↦
              subst (IsSigned now cookie secret) (passed-inj _ p (ground arith)) (record {
                expiry = exp;
                signature = sig;
                parts = e;
                signed = ground (arith, eq_iff (mac secret body) got);
                lasts = (until, reads, ground arith);
              })
        ]
      ]
  check_state_parts_lem now cookie secret l p e h = cc

  pub verify_state-IsSigned :
      (now : ℕ) (cookie secret : String) (p : StatePayload)
      → verify_state now cookie secret ≡ passed p
      → IsSigned now cookie secret p
  unfolding verify_state
  verify_state-IsSigned now cookie secret p h =
      check_state_parts_lem now cookie secret (split_dots cookie) p refl h
