-- ===== src/Bolt/Memory.antt =====
-- A bucket in memory that has the laws of `Engine`: the value that shows they can be met, and the
-- one on which the definitions are run.
use secret_share.Prelude.{
  sym, ◌∙◌, ap, if◌then◌else◌, Bool-cases, ◌==◌, none, String, List, Option, eq_refl, eq_iff, ◌≡◌,
  refl, inl, some, [], arith, inr, ◌∷◌,
}
use secret_share.Bolt.{lookup, HasDistinctKeys, Engine}

module _ {V : Type 0} where
  -- The pairs without a key.
  pub without : String → List (String × V) → List (String × V)
  without k [] = []
  without k ((j, v) ∷ l) = let rest = without k l in if j == k then rest else (j, v) ∷ rest

  lookup-without :
      (k j : String) (l : List (String × V))
      → lookup j (without k l) ≡ (if k == j then none else lookup j l)
  unfolding without
  lookup-without k j [] = ground arith
  lookup-without k j ((i, v) ∷ l) =
      ground (arith, lookup-without k j l, eq_iff i k, eq_iff i j, eq_iff k j)

  pub without-HasDistinctKeys :
      (k : String) (l : List (String × V)) → HasDistinctKeys l → HasDistinctKeys (without k l)
  unfolding without
  without-HasDistinctKeys k [] h = tt
  without-HasDistinctKeys k ((j, v) ∷ l) h =
      let rest = without-HasDistinctKeys k l h.1 in
      elim (Bool-cases (j == k)) [
        | inl same ↦ rw same rest
        | inr other ↦ rw other (ground (arith, lookup-without k j l, eq_iff k j), rest)
      ]

pub lookup-without_self :
    {V : Type 0} (k : String) (l : List (String × V)) → lookup k (without k l) ≡ none
lookup-without_self k l = rw (lookup-without, eq_refl)

abbrev pub Pairs : Type 0 → Type 0
Pairs V = (l : List (String × V)) × HasDistinctKeys l

pub find : {V : Type 0} → Pairs V → String → Option V
find b k = lookup k b.0

-- A blank key is refused.
pub store : {V : Type 0} → Pairs V → String → V → Option (Pairs V)
unfolding without
store b k v =
    if k == ""
    then none
    else some
        ((k, v) ∷ without k b.0, (lookup-without_self k b.0, without-HasDistinctKeys k b.0 b.1))

pub erase : {V : Type 0} → Pairs V → String → Option (Pairs V)
unfolding without
erase b k = some (without k b.0, without-HasDistinctKeys k b.0 b.1)

abbrev at_key : {V : Type 0} → String → Option (Pairs V) → Option V
at_key j none = none
at_key j (some b) = lookup j b.0

pub find-store :
    {V : Type 0} (b : Pairs V) (k j : String) (v : V) (b' : Pairs V)
    → store b k v ≡ some b'
    → find b' j ≡ (if k == j then some v else find b j)
unfolding find store
find-store b k j v b' h = elim (Bool-cases (k == "")) [
  | inl blank ↦ let h' = (rw blank at h) in cc
  | inr named ↦ sym (ap (at_key j) h) ∙ rw named (ground (arith, lookup-without k j b.0))
]

pub find-erase :
    {V : Type 0} (b : Pairs V) (k j : String) (b' : Pairs V)
    → erase b k ≡ some b'
    → find b' j ≡ (if k == j then none else find b j)
unfolding find erase
find-erase b k j b' h = sym (ap (at_key j) h) ∙ lookup-without k j b.0

unfoldable pub memory : Engine
unfolding find store erase
memory = record {
  Bucket = Pairs;
  empty = λ V. ([], tt);
  get = find;
  put = store;
  delete = erase;
  entries = λ b. b.0;
  get-empty = λ V k. refl;
  get-put = find-store;
  get-delete = find-erase;
  delete_writable = λ b k. cc;
  get-entries = λ b k. refl;
  entries-HasDistinctKeys = λ b. b.1;
}
