-- ===== src/Secrets/Sweep.antt =====
-- DeleteExpired of internal/domain/secrets/store.go: what the cursor loop removes and counts.
use secret_share.Secrets.Burn.{committed}
use secret_share.Prelude.{
  ◌&&◌, not, eqb, ltb, ◌⊎◌, ℕ, suc, ◌+◌, String, ◌≡◌, refl, inl, inr, Bool, false, Option, none,
  some, List, [], ◌∷◌, arith, eq_iff, lookup, HasDistinctKeys, count_if, Bool-cases, if◌then◌else◌,
}
use secret_share.Bolt.{closed, Error, raw_at, opened, Engine, json, junk}
use secret_share.Bolt.Laws.{delete_at}
use secret_share.Secret.{Time, is_expired}
use secret_share.Secrets.Store.{delete_expired, Store, Bytes, sweep_loop}

-- Bytes that decode to a secret with an expiry, which lies before now.
unfoldable pub is_stale : Time → Bytes → Bool
is_stale now junk = false
is_stale now (json sec) = not (eqb sec.expires_at 0) && ltb sec.expires_at now

-- What a sweep leaves of what stood under an id.
unfoldable pub keep_fresh : Time → Option Bytes → Option Bytes
keep_fresh now none = none
keep_fresh now (some raw) = if is_stale now raw then none else some raw

-- How many pairs the loop removes.
abbrev pub stale_count : Time → List (String × Bytes) → ℕ
stale_count now = count_if (λ p. is_stale now p.1)

module _ (E : Engine) where
  -- The loop removes the stale pairs of its list, and leaves what else the bucket holds.
  sweep_loop_get :
      (now : Time) (l : List (String × Bytes)) (b : E.Bucket Bytes) (n : ℕ) (j : String)
      → HasDistinctKeys l
      → (b' : E.Bucket Bytes) × (sweep_loop E now l b n
          ≡ record { out = n + stale_count now l; err = none; bucket = some b' })
        × (E.get b' j ≡ (elim (lookup j l) [
          | none ↦ E.get b j
          | some raw ↦ if is_stale now raw then none else E.get b j
        ]))
  unfolding sweep_loop is_stale is_expired
  sweep_loop_get now [] b n j h = (b, ground arith, refl)
  sweep_loop_get now ((k, junk) ∷ rest) b n j h =
      let (b', e, g) = sweep_loop_get now rest b n j h.1 in
      (b', ground arith, ground (arith, eq_iff k j))
  sweep_loop_get now ((k, json sec) ∷ rest) b n j h = elim (Bool-cases (is_stale now (json sec))) [
    | inl old ↦
        let (cut, deleted, at) = delete_at E b k j in
        let (b', e, g) = sweep_loop_get now rest cut (suc n) j h.1 in
        (b', ground arith, ground (arith, eq_iff k j))
    | inr new ↦
        let (b', e, g) = sweep_loop_get now rest b n j h.1 in
        (b', ground arith, ground (arith, eq_iff k j))
  ]

  -- The pairs that a store holds.
  unfoldable pub pairs : Store E → List (String × Bytes)
  pairs closed = []
  pairs (opened none) = []
  pairs (opened (some b)) = E.entries b

  -- A sweep has no error but its commit's. Without one it removes exactly the records with an
  -- expiry, other than the zero time, that lies before now, and undecodable bytes, a record whose
  -- expiry is now, and all else stay. Its count is the number of records that have expired so.
  pub delete_expired_lem :
      (commit : Option Error) (now : Time) (j : String) (s : Store E)
      → let r = delete_expired E commit now s in
        (r.0 ≡ stale_count now (pairs s))
        × (raw_at E r.2 j ≡ committed r.1 (keep_fresh now (raw_at E s j)) (raw_at E s j))
        × ((r.1 ≡ none) ⊎ (r.1 ≡ commit))
  unfolding delete_expired pairs raw_at keep_fresh
  delete_expired_lem commit now j closed = (ground arith, ground arith, inl refl)
  delete_expired_lem commit now j (opened none) = (ground arith, ground arith, inr (ground arith))
  delete_expired_lem commit now j (opened (some b)) =
      let (b', e, g) = sweep_loop_get now (E.entries b) b 0 j (E.entries-HasDistinctKeys b) in
      let at : E.get b j ≡ lookup j (E.entries b) = E.get-entries b j in
      (ground arith, ground arith, inr (ground arith))
