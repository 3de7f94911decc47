-- ===== src/Views/Limit.antt =====
-- Sequences of transactions on view budgets (internal/domain/secretviews/store.go), and how often
-- they serve an id.
use secret_share.Views.Store.{ViewsStore, put_budget, consume, BudgetBytes, Consumed, drop_budget}
use secret_share.Views.Budget.{
  consume_blank, drop_budget_lem, is_budget, put_budget_lem, is_count, consume_lem,
  consume_spec-last, consume_spec-more, consume_spec,
}
use secret_share.Prelude.{
  inr, inl, Bool-cases, eq_iff, true, negsuc, All, refl, ◌≤◌, ◌≡◌, List, arith, ◌∷◌, ℕ, ◌-◌, zero,
  ◌<◌, ◌^◌, false, some, suc, ◌+◌, none, [], ◌&&◌, ◌==◌, String, Option, ℤ, pos, pos_part, ltb_ℤ,
  if◌then◌else◌,
}
use secret_share.Bolt.{opened, closed, Error, raw_at, junk, Engine, json}

-- A transaction of the store, with the answer of its commit.
pub data ViewOp : Type 0 where
  grants : Option Error → String → ℤ → String → ViewOp
  consumes drops : Option Error → String → ViewOp

-- The views that Go's int can count.
abbrev pub IsInt : ViewOp → Type 0
IsInt (grants c id n ct) = pos_part n < 2 ^ 63
IsInt (consumes c id) = Unit
IsInt (drops c id) = Unit

-- The views that bytes still allow, beside the last one, which is the burn.
abbrev pub spare : Option BudgetBytes → ℕ
spare none = 0
spare (some junk) = 0
spare (some (json r)) = pos_part r.remaining - 1

-- One where a Consume without an error leaves the caller a view to serve: found, and some remain.
abbrev pub serves : Consumed → Option Error → ℕ
serves c none = if c.found && ltb_ℤ (pos 0) c.remaining then 1 else 0
serves c (some e) = 0

module _ (E : Engine) where
  unfoldable pub after_view : ViewOp → ViewsStore E → ViewsStore E
  after_view (grants c id n ct) s = (put_budget E c id n ct s).2
  after_view (consumes c id) s = (consume E c id s).2
  after_view (drops c id) s = (drop_budget E c id s).2

  -- How often a transaction serves the stored ciphertext of an id.
  unfoldable pub served : String → ViewOp → ViewsStore E → ℕ
  served id (consumes c k) s = let r = consume E c k s in if k == id then serves r.0 r.1 else 0
  served id _ s = 0

  -- How many extra views a transaction grants to an id.
  unfoldable pub granted : String → ViewOp → ℕ
  granted id (grants c k n ct) = if k == id then pos_part n - 1 else 0
  granted id _ = 0

  unfoldable pub served_in : String → List ViewOp → ViewsStore E → ℕ
  served_in id [] s = 0
  served_in id (op ∷ ops) s = served id op s + served_in id ops (after_view op s)

  unfoldable pub granted_in : String → List ViewOp → ℕ
  granted_in id [] = 0
  granted_in id (op ∷ ops) = granted id op + granted_in id ops

  -- One Consume spends one spare view, or none is left.
  consume_spends :
      (raw : Option BudgetBytes)
      → is_budget raw ≡ true
      → (serves (consume_spec raw).0 none + spare (consume_spec raw).1 ≤ spare raw)
        × (is_budget (consume_spec raw).1 ≡ true)
  consume_spends none h = unfold consume_spec in (omega arith, refl)
  consume_spends (some junk) h = unfold consume_spec in (omega arith, refl)
  consume_spends (some (json r)) h = count r.remaining refl h
    where
      count :
          (n : ℤ)
          → r.remaining ≡ n
          → is_count n ≡ true
          → (serves (consume_spec (some (json r))).0 none + spare (consume_spec (some (json r))).1
              ≤ spare (some (json r)))
            × (is_budget (consume_spec (some (json r))).1 ≡ true)
      count (negsuc n) e c = cc
      count (pos zero) e c = cc
      count (pos (suc zero)) e c = rw (consume_spec-last r e) (omega arith, refl)
      count (pos (suc (suc n))) e c =
          rw (consume_spec-more r n e (ground arith)) (ground arith, ground arith)

  pub step_budget :
      (id : String) (op : ViewOp) (s : ViewsStore E)
      → (id == "") ≡ false
      → IsInt op
      → is_budget (raw_at E s id) ≡ true
      → (served id op s + spare (raw_at E (after_view op s) id)
          ≤ granted id op + spare (raw_at E s id))
        × (is_budget (raw_at E (after_view op s) id) ≡ true)
  unfolding after_view served granted
  step_budget id (grants c k n ct) closed named small h = unfold put_budget in (omega arith, h)
  step_budget id (grants c k n ct) (opened b) named small h =
      ground (arith, put_budget_lem E c k id ct n b)
  step_budget id (consumes c k) s named small h = elim (Bool-cases (k == "")) [
    | inl blank ↦ ground (arith, consume_blank E c k s blank, eq_iff k id)
    | inr filled ↦
        ground (arith, consume_lem E c k id s filled, consume_spends (raw_at E s id) h, eq_iff k id)
  ]
  step_budget id (drops c k) s named small h = ground (arith, drop_budget_lem E c k id s)

  -- In any sequence of transactions, whatever their commits answer, the stored ciphertext of an id
  -- that is not blank is served at most once for each view beyond the first of the budgets that it
  -- was granted, and of the one that it had at the start. The views that are granted are below
  -- 2 ^ 63, as Go's int is; and at the start nothing stands under the id, or bytes that do not
  -- decode, or a budget of at least one view and less than 2 ^ 63.
  pub served-le-granted :
      (id : String) (ops : List ViewOp) (s : ViewsStore E)
      → (id == "") ≡ false
      → All IsInt ops
      → is_budget (raw_at E s id) ≡ true
      → served_in id ops s ≤ granted_in id ops + spare (raw_at E s id)
  unfolding served_in granted_in
  served-le-granted id [] s named small h = omega arith
  served-le-granted id (op ∷ ops) s named small h =
      let (here, next) = step_budget id op s named small.0 h in
      omega (arith, here, served-le-granted id ops (after_view op s) named small.1 next)
