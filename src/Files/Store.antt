-- ===== src/Files/Store.antt =====
-- The bbolt store of encrypted files (internal/domain/files/store.go) and its record
-- (internal/models/file/file.go). Its methods do not test the handle, so the database is open; the
-- bucket may not exist yet.
use secret_share.Secret.{Time, year_10000}
use secret_share.Prelude.{
  ◌≡◌, arith, ◌<◌, All, ◌&&◌, String, Option, ℕ, not, some, none, ◌∷◌, Bool, suc, true, [], List,
  if◌then◌else◌, ltb, eqb,
}
use secret_share.Bolt.{
  or_empty, Txn, Engine, json, delete_txn, bolt_failed, fail, Raw, unmarshal_failed, done,
  update_open, Error, marshal_failed, junk,
}

-- A []byte; the elements are below 256.
abbrev pub Blob : Type 0
Blob = List ℕ

abbrev pub IsBlob : Blob → Type 0
IsBlob b = All (λ n. n < 256) b

pub record File : Type 0 where
  pub id : String
  pub ciphertext : Blob
  pub created_at : Time
  pub expires_at : Time
  pub size : ℕ

-- The JSON object that encoding/json writes for a file: the bytes are a text in base64.
pub record FileDoc : Type 0 where
  pub id : String
  pub ciphertext : String
  pub created_at : Time
  pub expires_at : Time
  pub size : ℕ

-- encoding/base64, which encoding/json uses for a []byte; none is an error.
pub record Base64 : Type 0 where
  pub encode : Blob → String
  pub decode : String → Option Blob
  pub decode-encode : (b : Blob) → IsBlob b → decode (encode b) ≡ some b

unfoldable pub is_expired_file : File → Time → Bool
is_expired_file f now = not (eqb f.expires_at 0) && ltb f.expires_at now

-- encoding/json refuses a time past the year 9999.
unfoldable pub encodable_file : File → Bool
encodable_file f = ltb f.created_at year_10000 && ltb f.expires_at year_10000

abbrev pub FileBytes : Type 0
FileBytes = Raw FileDoc

-- json.Marshal of a file.
unfoldable pub document : Base64 → File → FileDoc
document b64 f = record {
  id = f.id;
  ciphertext = b64.encode f.ciphertext;
  created_at = f.created_at;
  expires_at = f.expires_at;
  size = f.size;
}

-- json.Unmarshal into a file, none for an error.
unfoldable pub read_file : Base64 → FileBytes → Option File
read_file b64 junk = none
read_file b64 (json d) = elim (b64.decode d.ciphertext) [
  | none ↦ none
  | some ct ↦ some (record {
    id = d.id;
    ciphertext = ct;
    created_at = d.created_at;
    expires_at = d.expires_at;
    size = d.size;
  })
]

-- What is written for a file is read as the file.
pub read_file-document :
    (b64 : Base64) (f : File) → IsBlob f.ciphertext → read_file b64 (json (document b64 f)) ≡ some f
unfolding read_file document
read_file-document b64 f good = ground (arith, b64.decode-encode f.ciphertext good)

-- The test of the loop of DeleteExpired: bytes that do not decode, or to an expired file.
unfoldable pub is_waste : Base64 → Time → FileBytes → Bool
is_waste b64 now raw = elim (read_file b64 raw) [ none ↦ true | some f ↦ is_expired_file f now ]

-- The keys that the loop of DeleteExpired collects.
unfoldable pub waste_keys : Base64 → Time → List (String × FileBytes) → List String
waste_keys b64 now [] = []
waste_keys b64 now ((k, raw) ∷ rest) =
    let found = waste_keys b64 now rest in if is_waste b64 now raw then k ∷ found else found

module _ (E : Engine) where
  open E use {Bucket, delete}

  abbrev pub FileStore : Type 0
  FileStore = Option (Bucket FileBytes)

  -- The deletes of DeleteExpired.
  unfoldable pub delete_files : List String → Bucket FileBytes → ℕ → Txn (Bucket FileBytes) ℕ
  delete_files [] b removed = done removed (some b)
  delete_files (k ∷ ks) b removed = elim (delete b k) [
    | none ↦ fail removed bolt_failed
    | some b' ↦ delete_files ks b' (suc removed)
  ]

module _ (E : Engine) (b64 : Base64) where
  open E use {Bucket, get, put, delete, entries}

  put_file : File → Bucket FileBytes → Txn (Bucket FileBytes) Unit
  put_file f b = elim (put b f.id (json (document b64 f))) [
    | none ↦ fail tt bolt_failed
    | some b' ↦ done tt (some b')
  ]

  unfoldable pub create_file :
      Option Error → File → FileStore E → Unit {0} × Option Error × FileStore E
  unfolding put_file update_open or_empty
  create_file commit f b =
      if encodable_file f
      then update_open commit b (put_file f (or_empty E b))
      else (tt, some marshal_failed, b)

  -- `now` is time.Now() in the transaction.
  unfoldable pub peek_file : Time → String → FileStore E → Option File × Option Error
  peek_file now id none = (none, none)
  peek_file now id (some b) = elim (get b id) [
    | none ↦ (none, none)
    | some raw ↦ elim (read_file b64 raw) [
      | none ↦ (none, some unmarshal_failed)
      | some f ↦ if is_expired_file f now then (none, none) else (some f, none)
    ]
  ]

  burn_file_txn : Time → String → FileStore E → Txn (Bucket FileBytes) (Option File)
  burn_file_txn now id none = done none none
  burn_file_txn now id (some b) = elim (get b id) [
    | none ↦ done none (some b)
    | some raw ↦ elim (delete b id) [
      | none ↦ fail none bolt_failed
      | some b' ↦ elim (read_file b64 raw) [
        | none ↦ done none (some b')
        | some f ↦ if is_expired_file f now then done none (some b') else done (some f) (some b')
      ]
    ]
  ]

  unfoldable pub burn_file :
      Option Error → Time → String → FileStore E → Option File × Option Error × FileStore E
  unfolding burn_file_txn update_open
  burn_file commit now id b = update_open commit b (burn_file_txn now id b)

  unfoldable pub remove_file :
      Option Error → String → FileStore E → Unit {0} × Option Error × FileStore E
  unfolding delete_txn update_open
  remove_file commit id b = update_open commit b (delete_txn E id b)

  sweep_files_txn : Time → FileStore E → Txn (Bucket FileBytes) ℕ
  sweep_files_txn now none = done 0 none
  sweep_files_txn now (some b) = delete_files E (waste_keys b64 now (entries b)) b 0

  unfoldable pub sweep_files : Option Error → Time → FileStore E → ℕ × Option Error × FileStore E
  unfolding sweep_files_txn update_open
  sweep_files commit now b = update_open commit b (sweep_files_txn now b)
