-- ===== src/Views/Store.antt =====
-- The bbolt store of view budgets, internal/domain/secretviews/store.go. A nil store, and one with
-- a nil handle, is `closed`.
use secret_share.Prelude.{
  [], true, some, List, String, false, Option, ◌==◌, none, Bool, ◌||◌, pos, leb_ℤ, dec_int, ltb_ℤ,
  ℤ, if◌then◌else◌,
}
use secret_share.Bolt.{
  done, update, json, fail, closed, keys, Error, bolt_failed, Txn, delete_txn, opened, Db, Raw,
  or_empty, Engine, junk,
}

pub record Budget : Type 0 where
  pub remaining : ℤ
  pub ciphertext : String

-- What Consume hands out: the ciphertext, the views that remain, whether there was a record.
pub record Consumed : Type 0 where
  pub ciphertext : String
  pub remaining : ℤ
  pub found : Bool

abbrev pub nothing : Consumed
nothing = record { ciphertext = ""; remaining = pos 0; found = false }

abbrev pub last_view : Consumed
last_view = record { ciphertext = ""; remaining = pos 0; found = true }

abbrev pub BudgetBytes : Type 0
BudgetBytes = Raw Budget

module _ (E : Engine) where
  open E use {Bucket, get, put, delete}

  abbrev pub ViewsStore : Type 0
  ViewsStore = Db (Bucket BudgetBytes)

  put_txn : String → Budget → Bucket BudgetBytes → Txn (Bucket BudgetBytes) Unit
  put_txn id r b = elim (put b id (json r)) [
    | none ↦ fail tt bolt_failed
    | some b' ↦ done tt (some b')
  ]

  unfoldable pub put_budget :
      Option Error → String → ℤ → String → ViewsStore → Unit {0} × Option Error × ViewsStore
  unfolding put_txn update or_empty
  put_budget commit id remaining ct closed = (tt, none, closed)
  put_budget commit id remaining ct (opened b) =
      if id == "" || ltb_ℤ remaining (pos 1)
      then (tt, none, opened b)
      else update commit b
          (put_txn id (record { remaining = remaining; ciphertext = ct }) (or_empty E b))

  -- One view of a record that decodes.
  view_txn : String → Budget → Bucket BudgetBytes → Txn (Bucket BudgetBytes) Consumed
  view_txn id r b =
      let left = dec_int r.remaining in
      let shown : Consumed = record { ciphertext = r.ciphertext; remaining = left; found = true } in
      if leb_ℤ left (pos 0)
      then elim (delete b id) [
        | none ↦ fail last_view bolt_failed
        | some b' ↦ done last_view (some b')
      ]
      else elim (put b id (json (record r { remaining = left }))) [
        | none ↦ fail shown bolt_failed
        | some b' ↦ done shown (some b')
      ]

  consume_txn : String → Option (Bucket BudgetBytes) → Txn (Bucket BudgetBytes) Consumed
  unfolding view_txn
  consume_txn id none = done nothing none
  consume_txn id (some b) = elim (get b id) [
    | none ↦ done nothing (some b)
    | some junk ↦ elim (delete b id) [
      | none ↦ fail nothing bolt_failed
      | some b' ↦ done nothing (some b')
    ]
    | some (json r) ↦ view_txn id r b
  ]

  unfoldable pub consume : Option Error → String → ViewsStore → Consumed × Option Error × ViewsStore
  unfolding consume_txn update
  consume commit id closed = (nothing, none, closed)
  consume commit id (opened b) =
      if id == "" then (nothing, none, opened b) else update commit b (consume_txn id b)

  -- Undecodable bytes read as no record.
  budget_of : Option BudgetBytes → ℤ × Bool
  budget_of none = (pos 0, false)
  budget_of (some junk) = (pos 0, false)
  budget_of (some (json r)) = (r.remaining, true)

  unfoldable pub remaining_views : String → ViewsStore → ℤ × Bool
  unfolding budget_of
  remaining_views id closed = (pos 0, false)
  remaining_views id (opened none) = (pos 0, false)
  remaining_views id (opened (some b)) = if id == "" then (pos 0, false) else budget_of (get b id)

  unfoldable pub drop_budget :
      Option Error → String → ViewsStore → Unit {0} × Option Error × ViewsStore
  unfolding delete_txn update
  drop_budget commit id closed = (tt, none, closed)
  drop_budget commit id (opened b) = update commit b (delete_txn E id b)

  -- What List finds, where its transaction runs.
  unfoldable pub budget_ids : ViewsStore → List String
  unfolding keys
  budget_ids s = keys E s

  -- `view` is the error of db.View, where a transaction is begun: none if it runs.
  unfoldable pub list_budgets : Option Error → ViewsStore → List String × Option Error
  list_budgets view closed = ([], none)
  list_budgets view (opened b) = elim view [
    | none ↦ (budget_ids (opened b), none)
    | some e ↦ ([], some e)
  ]
