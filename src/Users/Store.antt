-- ===== src/Users/Store.antt =====
-- The bbolt store of users, internal/domain/users/store.go, keyed by the normal form of the email.
-- A nil store, and one with a nil handle, is `closed`.
use secret_share.User.{normalize_email, Role, User}
use secret_share.Std.{Std}
use secret_share.Secret.{year_10000, Time}
use secret_share.Prelude.{
  ◌&&◌, Bool, ◌∷◌, Option, suc, ℕ, none, some, List, true, String, [], ◌==◌, if◌then◌else◌, eqb,
  ltb,
}
use secret_share.Bolt.{
  Engine, done, unmarshal_failed, Db, email_required, marshal_failed, closed, update, Txn, json,
  fail, Raw, junk, or_empty, Error, opened, store_not_open, bolt_failed, delete_txn,
}

abbrev pub UserBytes : Type 0
UserBytes = Raw User

abbrev storable_time : Option Time → Bool
storable_time none = true
storable_time (some t) = ltb t year_10000

-- encoding/json refuses a time past the year 9999.
unfoldable pub storable : User → Bool
storable p =
    ltb p.created_at year_10000 && ltb p.updated_at year_10000 && storable_time p.last_login_at

-- `err := json.Unmarshal` over what stands under a key.
abbrev pub read_user : Option UserBytes → Option User × Option Error
read_user none = (none, none)
read_user (some junk) = (none, some unmarshal_failed)
read_user (some (json p)) = (some p, none)

-- The loop of List: an undecodable row ends it. What was appended before is still returned.
unfoldable pub collect : List (String × UserBytes) → List User × Option Error
collect [] = ([], none)
collect ((k, junk) ∷ rest) = ([], some unmarshal_failed)
collect ((k, json p) ∷ rest) = let (l, err) = collect rest in (p ∷ l, err)

-- The loop of CountByRole.
unfoldable pub count_role : Role → List (String × UserBytes) → ℕ × Option Error
count_role role [] = (0, none)
count_role role ((k, junk) ∷ rest) = (0, some unmarshal_failed)
count_role role ((k, json p) ∷ rest) =
    let (n, err) = count_role role rest in (if p.role == role then suc n else n, err)

-- The times that Upsert stamps, over what it finds under the key.
unfoldable pub stamp : Time → Option UserBytes → User → User
stamp now existing p =
    let kept : Time = elim existing [
      | none ↦ p.created_at
      | some junk ↦ p.created_at
      | some (json prev) ↦ if eqb prev.created_at 0 then p.created_at else prev.created_at
    ] in
    record p { created_at = if eqb kept 0 then now else kept; updated_at = now }

module _ (std : Std) (E : Engine) where
  open E use {Bucket, get, put, entries}

  abbrev pub UserStore : Type 0
  UserStore = Db (Bucket UserBytes)

  unfoldable pub key : String → String
  unfolding normalize_email
  key email = normalize_email std email

  unfoldable pub get_user : String → UserStore → Option User × Option Error
  get_user email closed = (none, none)
  get_user email (opened none) = (none, none)
  get_user email (opened (some b)) = read_user (get b (key email))

  unfoldable pub list_users : UserStore → List User × Option Error
  list_users closed = ([], none)
  list_users (opened none) = ([], none)
  list_users (opened (some b)) = collect (entries b)

  upsert_txn : Time → User → Bucket UserBytes → Txn (Bucket UserBytes) User
  upsert_txn now p b =
      let p' = stamp now (get b (key p.email)) p in
      if storable p'
      then elim (put b (key p'.email) (json p')) [
        | none ↦ fail p' bolt_failed
        | some b' ↦ done p' (some b')
      ]
      else fail p' marshal_failed

  -- The caller's user is changed in place: the first part of the result is what it holds then.
  unfoldable pub upsert : Option Error → Time → User → UserStore → User × Option Error × UserStore
  unfolding upsert_txn update or_empty
  upsert commit now p closed = (p, some store_not_open, closed)
  upsert commit now p (opened b) =
      if p.email == ""
      then (p, some email_required, opened b)
      else update commit b
          (upsert_txn now (record p { email = normalize_email std p.email }) (or_empty E b))

  unfoldable pub delete_user :
      Option Error → String → UserStore → Unit {0} × Option Error × UserStore
  unfolding delete_txn update
  delete_user commit email closed = (tt, some store_not_open, closed)
  delete_user commit email (opened b) = update commit b (delete_txn E (key email) b)

  unfoldable pub count_by_role : Role → UserStore → ℕ × Option Error
  count_by_role role closed = (0, none)
  count_by_role role (opened none) = (0, none)
  count_by_role role (opened (some b)) = count_role role (entries b)
