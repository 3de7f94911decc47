-- ===== src/Views/Budget.antt =====
-- What the operations on view budgets (internal/domain/secretviews/store.go) do to the record
-- under each id.
use secret_share.Views.Store.{
  drop_budget, consume, Budget, put_budget, BudgetBytes, last_view, ViewsStore, Consumed, nothing,
}
use secret_share.Secrets.Burn.{committed}
use secret_share.Prelude.{
  ◌&&◌, negsuc, ltb, refl, ◌<◌, suc, ℕ, ◌^◌, some, true, arith, Option, not, ◌≢◌, eq_iff, false,
  none, Bool, ◌||◌, ◌≡◌, String, ◌==◌, dec_int, ℤ, leb_ℤ, pos, ltb_ℤ, if◌then◌else◌,
}
use secret_share.Bolt.Laws.{delete_at, put_at}
use secret_share.Bolt.{junk, Engine, closed, Error, json, raw_at, opened}

-- Putting a budget under an id that is not blank, of at least one view.
abbrev pub is_put : String → ℤ → Bool
is_put id n = not (id == "" || ltb_ℤ n (pos 1))

-- The contract of Consume: what it hands out of what stands under the id, and what it leaves.
-- Undecodable bytes are dropped, and so is a record on its last view.
unfoldable pub consume_spec : Option BudgetBytes → Consumed × Option BudgetBytes
consume_spec none = (nothing, none)
consume_spec (some junk) = (nothing, none)
consume_spec (some (json r)) =
    let left = dec_int r.remaining in
    if leb_ℤ left (pos 0) then (last_view, none) else (
      record { ciphertext = r.ciphertext; remaining = left; found = true },
      some (json (record r { remaining = left })),
    )

module _ (E : Engine) where
  -- A put that answers no error holds the new budget under its id, if the id is not blank and the
  -- budget is positive. Otherwise, and at every other id, the record is what it was.
  pub put_budget_lem :
      (commit : Option Error) (id j ct : String) (n : ℤ) (b : Option (E.Bucket BudgetBytes))
      → let r = put_budget E commit id n ct (opened b) in
        raw_at E r.2 j ≡ (
          if is_put id n
          then committed r.1
              (if id == j
                then some (json (record { remaining = n; ciphertext = ct }))
                else raw_at E (opened b) j)
              (raw_at E (opened b) j)
          else raw_at E (opened b) j)
  unfolding put_budget raw_at
  put_budget_lem commit id j ct n none =
      let r : Budget = record { remaining = n; ciphertext = ct } in
      ground (arith, put_at E (E.empty BudgetBytes) id j (json r), E.get-empty BudgetBytes j)
  put_budget_lem commit id j ct n (some b) =
      let r : Budget = record { remaining = n; ciphertext = ct } in
      ground (arith, put_at E b id j (json r))

  -- What `consume_lem` says, of a bucket in which some bytes stand under the id.
  consume_at :
      (commit : Option Error) (id j : String) (b : E.Bucket BudgetBytes) (raw : Option BudgetBytes)
      → E.get b id ≡ raw
      → (id == "") ≡ false
      → let r = consume E commit id (opened (some b)) in
        let c = consume_spec raw in
        (r.1 ≡ none → (r.0 ≡ c.0) × (raw_at E r.2 j ≡ (if id == j then c.1 else E.get b j)))
        × (r.1 ≢ none → raw_at E r.2 j ≡ E.get b j)
  unfolding consume raw_at consume_spec
  consume_at commit id j b none e named = ground (arith, eq_iff id j)
  consume_at commit id j b (some junk) e named = ground (arith, delete_at E b id j)
  consume_at commit id j b (some (json r)) e named =
      let next : Budget = record r { remaining = dec_int r.remaining } in
      ground (arith, delete_at E b id j, put_at E b id j (json next))

  -- At an id that is not blank, a Consume without an error meets its contract and touches no other
  -- id; one with an error changes nothing.
  pub consume_lem :
      (commit : Option Error) (id j : String) (s : ViewsStore E)
      → (id == "") ≡ false
      → let r = consume E commit id s in
        let c = consume_spec (raw_at E s id) in
        (r.1 ≡ none → (r.0 ≡ c.0) × (raw_at E r.2 j ≡ (if id == j then c.1 else raw_at E s j)))
        × (r.1 ≢ none → raw_at E r.2 j ≡ raw_at E s j)
  unfolding consume raw_at consume_spec
  consume_lem commit id j closed named = ground arith
  consume_lem commit id j (opened none) named = ground arith
  consume_lem commit id j (opened (some b)) named = consume_at commit id j b (E.get b id) refl named

  pub consume_blank :
      (commit : Option Error) (id : String) (s : ViewsStore E)
      → (id == "") ≡ true
      → consume E commit id s ≡ (nothing, none, s)
  unfolding consume
  consume_blank commit id closed blank = refl
  consume_blank commit id (opened b) blank = ground arith

  pub drop_budget_lem :
      (commit : Option Error) (id j : String) (s : ViewsStore E)
      → let r = drop_budget E commit id s in
        raw_at E r.2 j ≡ committed r.1 (if id == j then none else raw_at E s j) (raw_at E s j)
  unfolding drop_budget raw_at
  drop_budget_lem commit id j closed = ground arith
  drop_budget_lem commit id j (opened none) = ground arith
  drop_budget_lem commit id j (opened (some b)) = ground (arith, delete_at E b id j)

-- A number of views that a record can hold: positive, and an int.
abbrev pub is_count : ℤ → Bool
is_count (pos n) = ltb 0 n && ltb n (2 ^ 63)
is_count (negsuc n) = false

abbrev pub is_budget : Option BudgetBytes → Bool
is_budget none = true
is_budget (some junk) = true
is_budget (some (json r)) = is_count r.remaining

-- r.Remaining-- on a positive int.
pub dec_int-suc : (n : ℕ) → n < 2 ^ 63 → dec_int (pos (suc n)) ≡ pos n
unfolding dec_int
dec_int-suc n h = ground arith

-- Consume on a budget of n + 1 views: the last one ends it, and any other is counted down.
pub consume_spec-last :
    (r : Budget) → r.remaining ≡ pos 1 → consume_spec (some (json r)) ≡ (last_view, none)
unfolding consume_spec
consume_spec-last r e = ground (arith, dec_int-suc 0)

pub consume_spec-more :
    (r : Budget) (n : ℕ)
    → r.remaining ≡ pos (suc (suc n))
    → suc n < 2 ^ 63
    → consume_spec (some (json r)) ≡ (
      record { ciphertext = r.ciphertext; remaining = pos (suc n); found = true },
      some (json (record { remaining = pos (suc n); ciphertext = r.ciphertext })),
    )
unfolding consume_spec
consume_spec-more r n e lt = ground (arith, dec_int-suc (suc n))
