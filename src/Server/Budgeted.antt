-- ===== src/Server/Budgeted.antt =====
-- What multi-view secrets do at the edge (internal/server/multiview.go): the budget that a create
-- records, and the reveals that it serves.
use secret_share.Files.Laws.{shown}
use secret_share.Views.Store.{BudgetBytes, ViewsStore, consume, Budget}
use secret_share.Views.Budget.{consume_spec-last, consume_lem, consume_spec-more}
use secret_share.Std.{Std}
use secret_share.Server.World.{World, Handler, ViewsRequest}
use secret_share.Server.Multiview.{multi_view_reveal}
use secret_share.Prelude.{
  dec_int, ◌≢◌, refl, zero, some, eq_refl, ℕ, ◌≡◌, false, suc, ◌==◌, [], arith, ◌^◌, ◌<◌, List,
  String, ◌∷◌, Option, none, pos,
}
use secret_share.Http.{text, obj, Response, int}
use secret_share.Bolt.{junk, closed, opened, Engine, raw_at, json}

-- The answer to a view that leaves `n` more.
abbrev pub view_answer : String → ℕ → Response
view_answer ct n = record {
  status = 200;
  body = obj (("ciphertext", text ct) ∷ ("views_remaining", int (pos n)) ∷ []);
}

-- The answers to the views of a budget that leave n, n - 1, ... 1 more.
unfoldable pub countdown : String → ℕ → List Response
countdown ct zero = []
countdown ct (suc n) = view_answer ct (suc n) ∷ countdown ct n

-- A budget that was recorded by a create of the request.
abbrev pub granted_by : ViewsRequest → Budget
granted_by req = record { remaining = req.views; ciphertext = req.ciphertext }

module _ (std : Std) (E : Engine) where
  -- A budget of more than one view serves its ciphertext and counts down, whatever the handler
  -- behind it does or would answer.
  multi_view_reveal-more :
      (id : String) (next : Handler std E) (w : World std E) (r : Budget) (n : ℕ)
      → (id == "") ≡ false
      → raw_at E w.views id ≡ some (json r)
      → r.remaining ≡ pos (suc (suc n))
      → suc n < 2 ^ 63
      → (consume E none id w.views).1 ≡ none
      → let s = multi_view_reveal std E none id next w in
        (s.1 ≡ view_answer r.ciphertext (suc n))
        × (raw_at E s.2.views id
            ≡ some (json (record { remaining = pos (suc n); ciphertext = r.ciphertext })))
        × (s.2.secrets ≡ w.secrets)
  unfolding multi_view_reveal
  multi_view_reveal-more id next w r n named e more small fine = ground (
    arith,
    (consume_lem E none id id w.views named).0 fine,
    consume_spec-more r n more small,
    eq_refl id,
  )

  -- bbolt accepts writes under the id.
  abbrev pub Writable : String → Type 0
  Writable id = (b : E.Bucket BudgetBytes) (raw : BudgetBytes) → E.put b id raw ≢ none

  -- A row of reveals of an id, with the handler behind them: their answers, and what they leave.
  unfoldable pub reveal_times :
      ℕ → String → Handler std E → World std E → List Response × World std E
  reveal_times zero id next w = ([], w)
  reveal_times (suc k) id next w =
      let (err, resp, w') = multi_view_reveal std E none id next w in
      let (resps, end) = reveal_times k id next w' in (resp ∷ resps, end)

  -- A Consume whose commit succeeds answers no error.
  consume_fine : (id : String) (s : ViewsStore E) → Writable id → (consume E none id s).1 ≡ none
  unfolding consume
  consume_fine id closed writable = refl
  consume_fine id (opened none) writable = ground arith
  consume_fine id (opened (some b)) writable = at (E.get b id) refl
    where
      at :
          (raw : Option BudgetBytes)
          → E.get b id ≡ raw
          → (consume E none id (opened (some b))).1 ≡ none
      at none e = ground arith
      at (some junk) e = ground (arith, E.delete_writable b id)
      at (some (json r)) e =
          let left : Budget = record r { remaining = dec_int r.remaining } in
          ground (arith, E.delete_writable b id, writable b (json left))

  multi_view_reveal-last :
      (id : String) (next : Handler std E) (w : World std E) (r : Budget)
      → (id == "") ≡ false
      → raw_at E w.views id ≡ some (json r)
      → r.remaining ≡ pos 1
      → (consume E none id w.views).1 ≡ none
      → let views' = (consume E none id w.views).2 in
        (multi_view_reveal std E none id next w ≡ next (record w { views = views' }))
        × (raw_at E views' id ≡ none)
  unfolding multi_view_reveal
  multi_view_reveal-last id next w r named e last fine =
      ground (
        arith,
        (consume_lem E none id id w.views named).0 fine,
        consume_spec-last r last,
        eq_refl id,
      )

  -- Where bbolt writes and commits, the budget of an id that is not blank, of n + 1 views with
  -- n < 2 ^ 63, serves the next n reveals, with the
  -- stored ciphertext and n, n - 1, ... 1 views remaining, whatever the handler behind it would
  -- answer. They leave the secrets as they are. The reveal after them is the one of that
  -- handler, and the budget is gone before it runs.
  pub reveal_times-countdown :
      (n : ℕ) (id : String) (next : Handler std E) (w : World std E) (r : Budget)
      → (id == "") ≡ false
      → Writable id
      → raw_at E w.views id ≡ some (json r)
      → r.remaining ≡ pos (suc n)
      → n < 2 ^ 63
      → let (answers, w') = reveal_times n id next w in
        let views' = (consume E none id w'.views).2 in
        (answers ≡ countdown r.ciphertext n)
        × (w'.secrets ≡ w.secrets)
        × (multi_view_reveal std E none id next w' ≡ next (record w' { views = views' }))
        × (raw_at E views' id ≡ none)
  unfolding reveal_times countdown
  reveal_times-countdown zero id next w r named writable e last small =
      let (runs, dropped) =
        multi_view_reveal-last id next w r named e last (consume_fine id w.views writable) in
      (refl, refl, runs, dropped)
  reveal_times-countdown (suc n) id next w r named writable e more small =
      let fine = consume_fine id w.views writable in
      let (shown, left, same) = multi_view_reveal-more id next w r n named e more small fine in
      let w' = (multi_view_reveal std E none id next w).2 in
      let next_budget : Budget = record { remaining = pos (suc n); ciphertext = r.ciphertext } in
      let (answers, secrets, runs, dropped) =
        reveal_times-countdown n id next w' next_budget named writable left refl (omega arith) in
      (cc, cc, runs, dropped)
