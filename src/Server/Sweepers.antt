-- ===== src/Server/Sweepers.antt =====
-- The sweepers of private marks and of view budgets (internal/cli/serve.go): one tick of each. Each
-- delete is a transaction of its own; `commit` is the answer of the commit for an id.
use secret_share.Visibility.Store.{list_private, VisibilityStore, drop_mark}
use secret_share.Views.Store.{list_budgets, ViewsStore, drop_budget}
use secret_share.Secrets.Store.{Store, get_meta}
use secret_share.Prelude.{
  false, Option, true, [], List, some, none, ℕ, Bool, suc, String, ◌∷◌, if◌then◌else◌,
}
use secret_share.Bolt.{Error, Engine}

module _ (E : Engine) where
  -- GetMeta gave neither an error nor a secret.
  unfoldable pub is_orphan : Store E → String → Bool
  is_orphan secrets id =
      let (found, err) = get_meta E id secrets in
      elim err [ some e ↦ false | none ↦ elim found [ none ↦ true | some sec ↦ false ] ]

  -- One round of the loop, with the number of records that were dropped.
  unfoldable pub sweep_mark :
      Option Error → Store E → String → VisibilityStore E → ℕ → ℕ × VisibilityStore E
  sweep_mark commit secrets id marks dropped =
      let (_, err, marks') = drop_mark E commit id marks in
      if is_orphan secrets id
      then (elim err [ none ↦ (suc dropped, marks') | some e ↦ (dropped, marks') ])
      else (dropped, marks)

  unfoldable pub sweep_marks_loop :
      (String → Option Error)
      → Store E
      → List String
      → VisibilityStore E
      → ℕ
      → ℕ × VisibilityStore E
  sweep_marks_loop commit secrets [] marks dropped = (dropped, marks)
  sweep_marks_loop commit secrets (id ∷ ids) marks dropped =
      let (dropped', marks') = sweep_mark (commit id) secrets id marks dropped in
      sweep_marks_loop commit secrets ids marks' dropped'

  -- A tick ends where the list fails. `view` is the error of its transaction.
  unfoldable pub sweep_marks :
      Option Error → (String → Option Error) → Store E → VisibilityStore E → ℕ × VisibilityStore E
  sweep_marks view commit secrets marks =
      let (ids, err) = list_private E view marks in
      elim err [ some e ↦ (0, marks) | none ↦ sweep_marks_loop commit secrets ids marks 0 ]

  unfoldable pub sweep_budget :
      Option Error → Store E → String → ViewsStore E → ℕ → ℕ × ViewsStore E
  sweep_budget commit secrets id views dropped =
      let (_, err, views') = drop_budget E commit id views in
      if is_orphan secrets id
      then (elim err [ none ↦ (suc dropped, views') | some e ↦ (dropped, views') ])
      else (dropped, views)

  unfoldable pub sweep_views_loop :
      (String → Option Error) → Store E → List String → ViewsStore E → ℕ → ℕ × ViewsStore E
  sweep_views_loop commit secrets [] views dropped = (dropped, views)
  sweep_views_loop commit secrets (id ∷ ids) views dropped =
      let (dropped', views') = sweep_budget (commit id) secrets id views dropped in
      sweep_views_loop commit secrets ids views' dropped'

  unfoldable pub sweep_views :
      Option Error → (String → Option Error) → Store E → ViewsStore E → ℕ × ViewsStore E
  sweep_views view commit secrets views =
      let (ids, err) = list_budgets E view views in
      elim err [ some e ↦ (0, views) | none ↦ sweep_views_loop commit secrets ids views 0 ]
