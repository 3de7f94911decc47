-- ===== src/Secrets/Store.antt =====
-- The bbolt store of secrets, internal/domain/secrets/store.go. Each operation takes the answer of
-- the commit of its transaction (`commit`, an error or none), and returns what the method returns
-- with the store that it leaves.
use secret_share.Prelude.{
  ℕ, suc, String, true, false, Option, none, some, List, [], ◌∷◌, ◌==◌, if◌then◌else◌,
}
use secret_share.Bolt.{
  delete_txn, Engine, Raw, json, junk, Error, store_not_open, id_required, id_collision,
  marshal_failed, unmarshal_failed, bolt_failed, Db, closed, opened, Txn, done, fail, update,
  or_empty,
}
use secret_share.Secret.{Secret, Time, is_expired, encodable}

-- The value under an id: a record as JSON.
abbrev pub Bytes : Type 0
Bytes = Raw Secret

-- What GetMeta makes of the bytes that it finds.
abbrev pub read_bytes : Option Bytes → Option Secret × Option Error
read_bytes none = (none, none)
read_bytes (some junk) = (none, some unmarshal_failed)
read_bytes (some (json sec)) = (some sec, none)

module _ (E : Engine) where
  open E use {Bucket, get, put, delete, entries}

  abbrev pub Store : Type 0
  Store = Db (Bucket Bytes)

  create_txn : Secret → Bucket Bytes → Txn (Bucket Bytes) Unit
  create_txn sec b = elim (get b sec.id) [
    | some old ↦ fail tt id_collision
    | none ↦
        if encodable sec
        then elim (put b sec.id (json sec)) [
          | none ↦ fail tt bolt_failed
          | some b' ↦ done tt (some b')
        ]
        else fail tt marshal_failed
  ]

  -- A nil secret and one with no id are refused.
  unfoldable pub create : Option Error → Option Secret → Store → Unit {0} × Option Error × Store
  unfolding create_txn update or_empty
  create commit sec closed = (tt, some store_not_open, closed)
  create commit none (opened b) = (tt, some id_required, opened b)
  create commit (some sec) (opened b) =
      if sec.id == ""
      then (tt, some id_required, opened b)
      else update commit b (create_txn sec (or_empty E b))

  unfoldable pub get_meta : String → Store → Option Secret × Option Error
  get_meta id closed = (none, none)
  get_meta id (opened none) = (none, none)
  get_meta id (opened (some b)) = read_bytes (get b id)

  burn_txn : String → Option (Bucket Bytes) → Txn (Bucket Bytes) (Option Secret)
  burn_txn id none = done none none
  burn_txn id (some b) = elim (get b id) [
    | none ↦ done none (some b)
    | some junk ↦ fail none unmarshal_failed
    | some (json sec) ↦ elim (delete b id) [
      | none ↦ fail none bolt_failed
      | some b' ↦ done (some sec) (some b')
    ]
  ]

  unfoldable pub get_and_burn : Option Error → String → Store → Option Secret × Option Error × Store
  unfolding burn_txn update
  get_and_burn commit id closed = (none, none, closed)
  get_and_burn commit id (opened b) = update commit b (burn_txn id b)

  unfoldable pub remove : Option Error → String → Store → Unit {0} × Option Error × Store
  unfolding delete_txn update
  remove commit id closed = (tt, some store_not_open, closed)
  remove commit id (opened b) = update commit b (delete_txn E id b)

  -- The cursor loop of DeleteExpired over the pairs that it meets.
  unfoldable pub sweep_loop : Time → List (String × Bytes) → Bucket Bytes → ℕ → Txn (Bucket Bytes) ℕ
  sweep_loop now [] b count = done count (some b)
  sweep_loop now ((k, junk) ∷ rest) b count = sweep_loop now rest b count
  sweep_loop now ((k, json sec) ∷ rest) b count = elim (is_expired sec now) [
    | false ↦ sweep_loop now rest b count
    | true ↦ elim (delete b k) [
      | none ↦ fail count bolt_failed
      | some b' ↦ sweep_loop now rest b' (suc count)
    ]
  ]

  sweep_txn : Time → Option (Bucket Bytes) → Txn (Bucket Bytes) ℕ
  unfolding sweep_loop
  sweep_txn now none = done 0 none
  sweep_txn now (some b) = sweep_loop now (entries b) b 0

  unfoldable pub delete_expired : Option Error → Time → Store → ℕ × Option Error × Store
  unfolding sweep_txn update
  delete_expired commit now closed = (0, none, closed)
  delete_expired commit now (opened b) = update commit b (sweep_txn now b)
