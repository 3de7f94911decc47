-- ===== src/Login/Recovery.antt =====
-- The use of a recovery code, ConsumeRecoveryCode of internal/models/user/user.go.
use secret_share.User.{consume_recovery_code, User, Bcrypt, norm_recovery, consume_hash}
use secret_share.Std.{Std}
use secret_share.Prelude.{
  ◌∷◌, arith, [], ◌++◌, ◌≡◌, inr, String, List, ap, sym, ◌∙◌, true, refl, inl, some, false, All,
  Option-cases, Bool-cases,
}

module _ (bcrypt : Bcrypt) where
  -- One hash, the first of those that match, is taken out of a list.
  pub record IsFirstMatch (code : String) (before after : List String) : Type 0 where
    pub ahead : List String
    pub used : String
    pub behind : List String
    pub split : before ≡ ahead ++ used ∷ behind
    pub left : after ≡ ahead ++ behind
    pub matches : bcrypt.matches used code ≡ true
    pub unmatched : All (λ h. bcrypt.matches h code ≡ false) ahead

  consume_hash_lem :
      (code : String) (hs rest : List String)
      → consume_hash bcrypt code hs ≡ some rest
      → IsFirstMatch code hs rest
  unfolding consume_hash
  consume_hash_lem code [] rest h = cc
  consume_hash_lem code (x ∷ xs) rest h = elim (Bool-cases (bcrypt.matches x code)) [
    | inl hit ↦ record {
      ahead = [];
      used = x;
      behind = xs;
      split = refl;
      left = ground arith;
      matches = hit;
      unmatched = tt;
    }
    | inr miss ↦ elim (Option-cases (consume_hash bcrypt code xs)) [
      | inl nothing_found ↦ absurd (ground arith)
      | inr (ys, found) ↦
          let r = consume_hash_lem code xs ys found in
          let whole : rest ≡ x ∷ ys = ground arith in
          record {
            ahead = x ∷ r.ahead;
            used = r.used;
            behind = r.behind;
            split = ap (λ l. x ∷ l) r.split;
            left = whole ∙ ap (λ l. x ∷ l) r.left;
            matches = r.matches;
            unmatched = (miss, r.unmatched);
          }
    ]
  ]

  -- A recovery code that is accepted matches, without its formatting, one of the stored hashes. The
  -- first hash that it matches is used up, all others stay in their order, and nothing else of the
  -- user changes.
  pub consume_recovery_code_lem :
      (std : Std) (p q : User) (code : String)
      → consume_recovery_code std bcrypt p code ≡ some q
      → (q ≡ record p { recovery_code_hashes = q.recovery_code_hashes })
        × IsFirstMatch (norm_recovery std code) p.recovery_code_hashes q.recovery_code_hashes
  unfolding consume_recovery_code
  consume_recovery_code_lem std p q code h =
      let norm = norm_recovery std code in
      elim (Option-cases (consume_hash bcrypt norm p.recovery_code_hashes)) [
        | inl refused_code ↦ absurd (ground arith)
        | inr (rest, found) ↦
            let same : q ≡ record p { recovery_code_hashes = rest } = ground arith in
            let hashes : q.recovery_code_hashes ≡ rest = ap (λ u. u.recovery_code_hashes) same in
            (
              cc,
              consume_hash_lem norm p.recovery_code_hashes q.recovery_code_hashes
                  (found ∙ ap some (sym hashes)),
            )
      ]
