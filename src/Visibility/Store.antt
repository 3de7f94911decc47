-- ===== src/Visibility/Store.antt =====
-- The bbolt store of private ids, internal/domain/secretvis/store.go. A nil store, and one with a
-- nil handle, is `closed`. The value under an id is the marker; its presence means private.
use secret_share.Prelude.{
  [], false, String, Bool, true, Option, none, ◌==◌, some, List, if◌then◌else◌,
}
use secret_share.Bolt.{
  delete_txn, Db, Error, closed, keys, or_empty, bolt_failed, opened, Txn, update, Engine, fail,
  done,
}

abbrev pub Marker : Type 0
Marker = Unit

module _ (E : Engine) where
  open E use {Bucket, get, put}

  abbrev pub VisibilityStore : Type 0
  VisibilityStore = Db (Bucket Marker)

  mark_txn : String → Bucket Marker → Txn (Bucket Marker) Unit
  mark_txn id b = elim (put b id tt) [ none ↦ fail tt bolt_failed | some b' ↦ done tt (some b') ]

  unfoldable pub set_private :
      Option Error → String → VisibilityStore → Unit {0} × Option Error × VisibilityStore
  unfolding mark_txn update or_empty
  set_private commit id closed = (tt, none, closed)
  set_private commit id (opened b) =
      if id == "" then (tt, none, opened b) else update commit b (mark_txn id (or_empty E b))

  is_there : Option Marker → Bool
  is_there none = false
  is_there (some m) = true

  -- Whether an id has a mark, where the transaction runs.
  unfoldable pub is_private : String → VisibilityStore → Bool
  unfolding is_there
  is_private id closed = false
  is_private id (opened none) = false
  is_private id (opened (some b)) = if id == "" then false else is_there (get b id)

  unfoldable pub drop_mark :
      Option Error → String → VisibilityStore → Unit {0} × Option Error × VisibilityStore
  unfolding delete_txn update
  drop_mark commit id closed = (tt, none, closed)
  drop_mark commit id (opened b) = update commit b (delete_txn E id b)

  -- IsPrivate. `view` is the error of db.View, where a transaction is begun: none if it runs.
  unfoldable pub read_private : Option Error → String → VisibilityStore → Bool × Option Error
  read_private view id closed = (false, none)
  read_private view id (opened b) =
      if id == ""
      then (false, none)
      else elim view [ none ↦ (is_private id (opened b), none) | some e ↦ (false, some e) ]

  -- What List finds, where its transaction runs.
  unfoldable pub marked_ids : VisibilityStore → List String
  unfolding keys
  marked_ids s = keys E s

  unfoldable pub list_private : Option Error → VisibilityStore → List String × Option Error
  list_private view closed = ([], none)
  list_private view (opened b) = elim view [
    | none ↦ (marked_ids (opened b), none)
    | some e ↦ ([], some e)
  ]
