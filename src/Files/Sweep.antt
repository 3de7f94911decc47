-- ===== src/Files/Sweep.antt =====
-- DeleteExpired of internal/domain/files/store.go: what its two loops remove and count.
use secret_share.Secrets.Burn.{committed}
use secret_share.Secret.{Time}
use secret_share.Prelude.{
  arith, ◌≡◌, [], ◌||◌, ◌==◌, false, Option, Bool, suc, String, ℕ, none, some, eq_iff, List, ◌+◌,
  refl, ◌∷◌, count_if, length, HasDistinctKeys, lookup, if◌then◌else◌,
}
use secret_share.Files.Store.{
  Base64, is_waste, waste_keys, FileBytes, FileStore, sweep_files, delete_files,
}
use secret_share.Bolt.Laws.{delete_at}
use secret_share.Bolt.{Engine, Error, raw_in}

-- What a sweep leaves of what stood under an id.
unfoldable pub keep_good : Base64 → Time → Option FileBytes → Option FileBytes
keep_good b64 now none = none
keep_good b64 now (some raw) = if is_waste b64 now raw then none else some raw

unfoldable pub is_in : String → List String → Bool
is_in j [] = false
is_in j (k ∷ ks) = k == j || is_in j ks

-- The keys that are collected are those of the pairs that pass the test.
is_in-waste_keys :
    (b64 : Base64) (now : Time) (l : List (String × FileBytes)) (j : String)
    → HasDistinctKeys l
    → is_in j (waste_keys b64 now l)
      ≡ (elim (lookup j l) [ none ↦ false | some raw ↦ is_waste b64 now raw ])
unfolding is_in waste_keys
is_in-waste_keys b64 now [] j h = refl
is_in-waste_keys b64 now ((k, raw) ∷ rest) j h =
    ground (arith, is_in-waste_keys b64 now rest j h.1, eq_iff k j)

length-waste_keys :
    (b64 : Base64) (now : Time) (l : List (String × FileBytes))
    → length (waste_keys b64 now l) ≡ count_if (λ p. is_waste b64 now p.1) l
unfolding waste_keys
length-waste_keys b64 now [] = refl
length-waste_keys b64 now ((k, raw) ∷ rest) = ground (arith, length-waste_keys b64 now rest)

module _ (E : Engine) where
  delete_files_lem :
      (ks : List String) (b : E.Bucket FileBytes) (n : ℕ) (j : String)
      → (b' : E.Bucket FileBytes) × (delete_files E ks b n
          ≡ record { out = n + length ks; err = none; bucket = some b' })
        × (E.get b' j ≡ (if is_in j ks then none else E.get b j))
  unfolding delete_files is_in
  delete_files_lem [] b n j = (b, ground arith, refl)
  delete_files_lem (k ∷ ks) b n j =
      let (cut, deleted, at) = delete_at E b k j in
      let (b', e, g) = delete_files_lem ks cut (suc n) j in
      (b', ground arith, ground (arith, eq_iff k j))

  -- The pairs that a bucket holds.
  unfoldable pub files_of : FileStore E → List (String × FileBytes)
  files_of none = []
  files_of (some b) = E.entries b

  -- A sweep answers the error of its commit, and no other. Without one it removes exactly the
  -- files that have expired and the bytes that do not decode, and all else stays; with one, nothing
  -- changes. Its count is the number of those files and bytes.
  pub sweep_files_lem :
      (b64 : Base64) (commit : Option Error) (now : Time) (j : String) (b : FileStore E)
      → let r = sweep_files E b64 commit now b in
        (r.0 ≡ count_if (λ p. is_waste b64 now p.1) (files_of b))
        × (r.1 ≡ commit)
        × (raw_in E r.2 j ≡ committed commit (keep_good b64 now (raw_in E b j)) (raw_in E b j))
  unfolding sweep_files files_of raw_in keep_good
  sweep_files_lem b64 commit now j none = ground arith
  sweep_files_lem b64 commit now j (some b) =
      let (b', e, g) = delete_files_lem (waste_keys b64 now (E.entries b)) b 0 j in
      let at : E.get b j ≡ lookup j (E.entries b) = E.get-entries b j in
      let found = is_in-waste_keys b64 now (E.entries b) j (E.entries-HasDistinctKeys b) in
      let counted = length-waste_keys b64 now (E.entries b) in ground arith
