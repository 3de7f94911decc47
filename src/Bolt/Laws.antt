-- ===== src/Bolt/Laws.antt =====
-- What the laws of a bucket say of the calls as the stores make them.
use secret_share.Prelude.{
  refl, Option, String, ◌≡◌, ◌⊎◌, none, some, ◌==◌, if◌then◌else◌, Option-cases, inl, inr,
}
use secret_share.Bolt.{or_empty, raw_at, opened, Engine}

module _ (E : Engine) {V : Type 0} where
  -- A delete gives a bucket, without the key.
  pub delete_at :
      (b : E.Bucket V) (k j : String)
      → (b' : E.Bucket V) × (E.delete b k ≡ some b')
        × (E.get b' j ≡ (if k == j then none else E.get b j))
  delete_at b k j = elim (Option-cases (E.delete b k)) [
    | inl h ↦ absurd (E.delete_writable b k h)
    | inr found ↦ (found.0, found.1, E.get-delete b k j found.0 found.1)
  ]

  -- A put that does not fail gives a bucket with the new value.
  pub put_at :
      (b : E.Bucket V) (k j : String) (v : V)
      → (E.put b k v ≡ none)
        ⊎ ((b' : E.Bucket V) × (E.put b k v ≡ some b')
            × (E.get b' j ≡ (if k == j then some v else E.get b j)))
  put_at b k j v = elim (Option-cases (E.put b k v)) [
    | inl h ↦ inl h
    | inr found ↦ inr (found.0, found.1, E.get-put b k j v found.0 found.1)
  ]

  -- A bucket created where there was none shows the same bytes.
  pub raw_at-or_empty :
      (o : Option (E.Bucket V)) (j : String) → E.get (or_empty E o) j ≡ raw_at E (opened o) j
  unfolding or_empty raw_at
  raw_at-or_empty none j = E.get-empty V j
  raw_at-or_empty (some b) j = refl
