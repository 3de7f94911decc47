-- ===== src/Bolt.antt =====
-- The bbolt database that the stores of internal/domain/* stand on. bbolt is a third-party
-- package: a bucket is the parameter `Engine` with the documented behaviour of the calls that the
-- stores make. Transactions (db.View, db.Update) are functions on the bucket that a store uses.

pub mod Laws
pub mod Memory
use secret_share.Prelude.{
  [], map, String, ◌≡◌, ◌≢◌, Option, none, some, List, lookup, HasDistinctKeys, ◌==◌, if◌then◌else◌,
}

-- What a call can answer as its `error`.
pub data Error : Type 0 where
  store_not_open id_required email_required id_collision : Error
  marshal_failed unmarshal_failed bolt_failed commit_failed : Error

-- The bytes under a key: those that encoding/json decodes to a record, or any others.
pub data Raw (A : Type 0) : Type 0 where
  json : A → Raw A
  junk : Raw A

-- Buckets. `none` from `put` and `delete` is an error of the call (for `put` a blank or an
-- oversized key, or an oversized value).
pub record Engine : Type 1 where
  pub Bucket : Type 0 → Type 0
  pub empty : (V : Type 0) → Bucket V
  pub get : {V : Type 0} → Bucket V → String → Option V
  pub put : {V : Type 0} → Bucket V → String → V → Option (Bucket V)
  pub delete : {V : Type 0} → Bucket V → String → Option (Bucket V)
  -- The pairs in the order in which a cursor and ForEach meet them.
  pub entries : {V : Type 0} → Bucket V → List (String × V)
  pub get-empty : (V : Type 0) (k : String) → get (empty V) k ≡ none
  pub get-put :
      {V : Type 0} (b : Bucket V) (k j : String) (v : V) (b' : Bucket V)
      → put b k v ≡ some b'
      → get b' j ≡ (if k == j then some v else get b j)
  pub get-delete :
      {V : Type 0} (b : Bucket V) (k j : String) (b' : Bucket V)
      → delete b k ≡ some b'
      → get b' j ≡ (if k == j then none else get b j)
  -- Delete fails in a read-only transaction alone, and the stores delete under Update.
  pub delete_writable : {V : Type 0} (b : Bucket V) (k : String) → delete b k ≢ none
  pub get-entries : {V : Type 0} (b : Bucket V) (k : String) → get b k ≡ lookup k (entries b)
  pub entries-HasDistinctKeys : {V : Type 0} (b : Bucket V) → HasDistinctKeys (entries b)

-- The handle of a store: nil, or an open database with its bucket, which may not exist yet.
pub data Db (B : Type 0) : Type 0 where
  closed : Db B
  opened : Option B → Db B

-- What the function given to a transaction leaves: the captured result, its error, the bucket.
pub record Txn (B A : Type 0) : Type 0 where
  pub out : A
  pub err : Option Error
  pub bucket : Option B

abbrev pub done : {B A : Type 0} → A → Option B → Txn B A
done a b = record { out = a; err = none; bucket = b }

abbrev pub fail : {B A : Type 0} → A → Error → Txn B A
fail a e = record { out = a; err = some e; bucket = none }

-- db.Update: an error of the function, or of the commit, rolls everything back. What the function
-- has captured stays captured.
unfoldable pub update : {B A : Type 0} → Option Error → Option B → Txn B A → A × Option Error × Db B
update commit before t = elim t.err [
  | some e ↦ (t.out, some e, opened before)
  | none ↦ elim commit [
    | some e ↦ (t.out, some e, opened before)
    | none ↦ (t.out, none, opened t.bucket)
  ]
]

-- What a store shows under a key to a reader: the decoded record.
unfoldable pub decode : {A : Type 0} → Option (Raw A) → Option A
decode none = none
decode (some junk) = none
decode (some (json a)) = some a

-- CreateBucketIfNotExists.
unfoldable pub or_empty : (E : Engine) {V : Type 0} → Option (E.Bucket V) → E.Bucket V
or_empty E none = E.empty _
or_empty E (some b) = b

-- The bytes under a key of a store; nothing where there is no handle or no bucket.
unfoldable pub raw_at : (E : Engine) {V : Type 0} → Db (E.Bucket V) → String → Option V
raw_at E closed k = none
raw_at E (opened none) k = none
raw_at E (opened (some b)) k = E.get b k

-- The transaction of every Delete method.
unfoldable pub delete_txn :
    (E : Engine) {V : Type 0} → String → Option (E.Bucket V) → Txn (E.Bucket V) Unit
delete_txn E id none = done tt none
delete_txn E id (some b) = elim (E.delete b id) [
  | none ↦ fail tt bolt_failed
  | some b' ↦ done tt (some b')
]

-- The keys that ForEach meets, for every List method of ids.
unfoldable pub keys : (E : Engine) {V : Type 0} → Db (E.Bucket V) → List String
keys E closed = []
keys E (opened none) = []
keys E (opened (some b)) = map (λ p. p.0) (E.entries b)

-- db.Update of a store that does not test its handle: the database is open.
unfoldable pub update_open :
    {B A : Type 0} → Option Error → Option B → Txn B A → A × Option Error × Option B
update_open commit before t = elim t.err [
  | some e ↦ (t.out, some e, before)
  | none ↦ elim commit [ some e ↦ (t.out, some e, before) | none ↦ (t.out, none, t.bucket) ]
]

-- The bytes under a key of a bucket that may not exist yet.
unfoldable pub raw_in : (E : Engine) {V : Type 0} → Option (E.Bucket V) → String → Option V
raw_in E none k = none
raw_in E (some b) k = E.get b k
