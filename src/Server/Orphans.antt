-- ===== src/Server/Orphans.antt =====
-- What the sweepers of internal/cli/serve.go drop.
use secret_share.Views.Budget.{drop_budget_lem}
use secret_share.Visibility.Store.{marked_ids, drop_mark, VisibilityStore, is_private, list_private}
use secret_share.Visibility.Marks.{drop_mark_lem}
use secret_share.Views.Store.{budget_ids, list_budgets, drop_budget, ViewsStore}
use secret_share.Server.Sweepers.{
  sweep_views, sweep_budget, sweep_views_loop, sweep_marks_loop, is_orphan, sweep_mark, sweep_marks,
}
use secret_share.Secrets.Store.{Bytes, get_meta, Store}
use secret_share.Prelude.{
  Bool, inr, inl, ◌⊎◌, Option-cases, if◌then◌else◌, refl, ℕ, ◌&&◌, ◌∷◌, eq_iff, some, List, not, [],
  String, false, arith, ◌==◌, ◌∙◌, Option, ap, none, true, ◌≡◌, lookup,
}
use secret_share.Files.Sweep.{is_in}
use secret_share.Bolt.Laws.{delete_at}
use secret_share.Bolt.{json, junk, raw_at, opened, Error, Engine, closed}
use mathlib.Core.List.{map}

-- An id is among the keys of a list of pairs if a value is found under it.
is_in-map :
    {V : Type 0} (l : List (String × V)) (j : String)
    → is_in j (map (λ p. p.0) l) ≡ (elim (lookup j l) [ none ↦ false | some v ↦ true ])
unfolding is_in
is_in-map [] j = refl
is_in-map ((k, v) ∷ rest) j = ground (arith, is_in-map rest j)

module _ (E : Engine) where
  drop_mark_fine : (id : String) (s : VisibilityStore E) → (drop_mark E none id s).1 ≡ none
  unfolding drop_mark
  drop_mark_fine id closed = refl
  drop_mark_fine id (opened none) = ground arith
  drop_mark_fine id (opened (some b)) = ground (arith, delete_at E b id id)

  drop_budget_fine : (id : String) (s : ViewsStore E) → (drop_budget E none id s).1 ≡ none
  unfolding drop_budget
  drop_budget_fine id closed = refl
  drop_budget_fine id (opened none) = ground arith
  drop_budget_fine id (opened (some b)) = ground (arith, delete_at E b id id)

  sweep_mark_lem :
      (secrets : Store E) (id j : String) (marks : VisibilityStore E) (n : ℕ)
      → is_private E j (sweep_mark E none secrets id marks n).1
        ≡ (is_private E j marks && not (id == j && is_orphan E secrets j))
  unfolding sweep_mark
  sweep_mark_lem secrets id j marks n =
      ground (arith, drop_mark_fine id marks, drop_mark_lem E none id j marks, eq_iff id j)

  sweep_marks_loop_lem :
      (commit : String → Option Error) (secrets : Store E) (ids : List String) (j : String)
      (marks : VisibilityStore E) (n : ℕ)
      → ((id : String) → commit id ≡ none)
      → is_private E j (sweep_marks_loop E commit secrets ids marks n).1
        ≡ (is_private E j marks && not (is_in j ids && is_orphan E secrets j))
  unfolding sweep_marks_loop is_in
  sweep_marks_loop_lem commit secrets [] j marks n fine = ground arith
  sweep_marks_loop_lem commit secrets (id ∷ ids) j marks n fine =
      let here = sweep_mark E (commit id) secrets id marks n in
      let rest = sweep_marks_loop_lem commit secrets ids j here.1 here.0 fine in
      let now = sweep_mark_lem secrets id j marks n in
      let same : here ≡ sweep_mark E none secrets id marks n =
        ap (λ c. sweep_mark E c secrets id marks n) (fine id) in
      let seen : is_private E j here.1
          ≡ (is_private E j marks && not (id == j && is_orphan E secrets j)) =
        ap (λ r. is_private E j r.1) same ∙ now in
      ground (arith, rest, seen)

  listed_private :
      (j : String) (marks : VisibilityStore E)
      → is_private E j marks ≡ true
      → is_in j (marked_ids E marks) ≡ true
  unfolding is_private marked_ids
  listed_private j closed h = cc
  listed_private j (opened none) h = cc
  listed_private j (opened (some b)) h =
      ground (arith, is_in-map (E.entries b) j, E.get-entries b j)

  -- Something stands under an id of a store.
  abbrev pub is_present : Option Bytes → Bool
  is_present none = false
  is_present (some raw) = true

  is_orphan_lem :
      (secrets : Store E) (j : String)
      → is_orphan E secrets j ≡ not (is_present (raw_at E secrets j))
  unfolding is_orphan get_meta raw_at
  is_orphan_lem closed j = refl
  is_orphan_lem (opened none) j = refl
  is_orphan_lem (opened (some b)) j = at (E.get b j) refl
    where
      at :
          (raw : Option Bytes)
          → E.get b j ≡ raw
          → is_orphan E (opened (some b)) j ≡ not (is_present (E.get b j))
      at none e = ground (arith, e)
      at (some junk) e = ground (arith, e)
      at (some (json sec)) e = ground (arith, e)

  -- Where the list and the commits do not fail, a tick of the sweeper of marks leaves private
  -- exactly the private ids under which something stands in the store of secrets, a secret or bytes
  -- that do not decode. The mark of any other id is dropped, be it the id of a private file or not.
  pub sweep_marks_lem :
      (commit : String → Option Error) (secrets : Store E) (marks : VisibilityStore E) (j : String)
      → ((id : String) → commit id ≡ none)
      → is_private E j (sweep_marks E none commit secrets marks).1
        ≡ (is_private E j marks && is_present (raw_at E secrets j))
  unfolding sweep_marks list_private sweep_marks_loop is_private
  sweep_marks_lem commit secrets closed j fine = ground arith
  sweep_marks_lem commit secrets (opened b) j fine = ground (
    arith,
    sweep_marks_loop_lem commit secrets (marked_ids E (opened b)) j (opened b) 0 fine,
    listed_private j (opened b),
    is_orphan_lem secrets j,
  )

  sweep_budget_lem :
      (secrets : Store E) (id j : String) (views : ViewsStore E) (n : ℕ)
      → raw_at E (sweep_budget E none secrets id views n).1 j
        ≡ (if id == j && is_orphan E secrets j then none else raw_at E views j)
  unfolding sweep_budget
  sweep_budget_lem secrets id j views n =
      ground (arith, drop_budget_fine id views, drop_budget_lem E none id j views, eq_iff id j)

  sweep_views_loop_lem :
      (commit : String → Option Error) (secrets : Store E) (ids : List String) (j : String)
      (views : ViewsStore E) (n : ℕ)
      → ((id : String) → commit id ≡ none)
      → raw_at E (sweep_views_loop E commit secrets ids views n).1 j
        ≡ (if is_in j ids && is_orphan E secrets j then none else raw_at E views j)
  unfolding sweep_views_loop is_in
  sweep_views_loop_lem commit secrets [] j views n fine = ground arith
  sweep_views_loop_lem commit secrets (id ∷ ids) j views n fine =
      let here = sweep_budget E (commit id) secrets id views n in
      let rest = sweep_views_loop_lem commit secrets ids j here.1 here.0 fine in
      let same : here ≡ sweep_budget E none secrets id views n =
        ap (λ c. sweep_budget E c secrets id views n) (fine id) in
      let seen : raw_at E here.1 j
          ≡ (if id == j && is_orphan E secrets j then none else raw_at E views j) =
        ap (λ r. raw_at E r.1 j) same ∙ sweep_budget_lem secrets id j views n in
      ground (arith, rest, seen)

  listed_budget :
      (j : String) (views : ViewsStore E)
      → (is_in j (budget_ids E views) ≡ true) ⊎ (raw_at E views j ≡ none)
  unfolding raw_at budget_ids
  listed_budget j closed = inr refl
  listed_budget j (opened none) = inr refl
  listed_budget j (opened (some b)) = elim (Option-cases (E.get b j)) [
    | inl nil ↦ inr nil
    | inr (raw, there) ↦ inl (ground (arith, is_in-map (E.entries b) j, E.get-entries b j))
  ]

  -- Where the list and the commits do not fail, a tick of the sweeper of view budgets drops
  -- exactly the budgets of the ids under which nothing stands in the store of secrets.
  pub sweep_views_lem :
      (commit : String → Option Error) (secrets : Store E) (views : ViewsStore E) (j : String)
      → ((id : String) → commit id ≡ none)
      → raw_at E (sweep_views E none commit secrets views).1 j
        ≡ (if is_present (raw_at E secrets j) then raw_at E views j else none)
  unfolding sweep_views list_budgets sweep_views_loop raw_at
  sweep_views_lem commit secrets closed j fine = ground arith
  sweep_views_lem commit secrets (opened b) j fine = ground (
    arith,
    sweep_views_loop_lem commit secrets (budget_ids E (opened b)) j (opened b) 0 fine,
    listed_budget j (opened b),
    is_orphan_lem secrets j,
  )
