-- ===== src/Server/Exposure.antt =====
-- How often a secret leaves the server through the reveal route (internal/server/routes.go), with
-- its view budget (internal/server/multiview.go).
use secret_share.Views.Store.{ViewsStore, consume}
use secret_share.Views.Budget.{is_budget}
use secret_share.Server.Multiview.{annotate_views_meta, multi_view_reveal}
use secret_share.Server.Access.{reveal_gate_cases}
use secret_share.Secrets.Once.{present}
use secret_share.Views.Limit.{serves, granted, served, after_view, step_budget, consumes, spare}
use secret_share.Std.{Std}
use secret_share.Session.{Codec}
use secret_share.Server.World.{World}
use secret_share.Server.Routes.{
  meta_route, reveal_route, ServerConfig, RouteEnv, on_secrets, burn_route,
}
use secret_share.Server.Middleware.{drop_visibility_on_burn}
use secret_share.Secrets.Store.{Store}
use secret_share.Secrets.Handler.{Env, reveal_handler, meta_handler}
use secret_share.Secrets.Burn.{remove_lem, get_and_burn_lem, get_meta_lem}
use secret_share.Prelude.{
  ◌∷◌, List, [], Option, inl, true, false, inr, ◌==◌, eq_iff, ◌≡◌, String, ◌≤◌, ℕ, arith, ◌+◌,
  if◌then◌else◌, eqb,
}
use secret_share.Http.{Response}
use secret_share.Bolt.{Error, raw_at, Engine}

-- A visit of a link: a request to its reveal or its meta endpoint.
pub data Visit : Type 0 where
  reveals metas : RouteEnv → String → Visit

-- One for an answer 200, else zero.
abbrev pub given_out : Response → ℕ
given_out r = if eqb r.status 200 then 1 else 0

module _ (std : Std) (E : Engine) (codec : Codec) (cfg : ServerConfig) where
  -- How often the ciphertext of an id can still leave: the spare views, and the burn.
  unfoldable pub exposure : String → World std E → ℕ
  exposure id w = spare (raw_at E w.views id) + present (raw_at E w.secrets id)

  reveal_spends :
      (env : Env) (id j : String) (s : Store E)
      → let r = reveal_handler std E cfg.secrets env id s in
        (if id == j then given_out r.1 else 0) + present (raw_at E r.2 j) ≤ present (raw_at E s j)
  unfolding reveal_handler
  reveal_spends env id j s = ground (
    arith,
    get_meta_lem E id s,
    get_and_burn_lem E env.burn id j s,
    remove_lem E env.reap id j s,
    eq_iff id j,
  )

  meta_spends :
      (env : Env) (id j : String) (s : Store E)
      → present (raw_at E (meta_handler std E cfg.secrets env id s).2 j) ≤ present (raw_at E s j)
  unfolding meta_handler
  meta_spends env id j s = ground (arith, get_meta_lem E id s, remove_lem E env.reap id j s)

  -- The real reveal leaves the budgets, and spends the secret if it answers 200.
  burn_route_spends :
      (env : RouteEnv) (id j : String) (w : World std E)
      → let r = burn_route std E codec cfg env id w in
        ((if id == j then given_out r.1 else 0) + present (raw_at E r.2.secrets j)
          ≤ present (raw_at E w.secrets j))
        × (r.2.views ≡ w.views)
  unfolding burn_route drop_visibility_on_burn on_secrets
  burn_route_spends env id j w = ground (arith, reveal_spends env.handler id j w.secrets)

  consume_spares :
      (take : Option Error) (id j : String) (s : ViewsStore E)
      → (j == "") ≡ false
      → is_budget (raw_at E s j) ≡ true
      → let r = consume E take id s in
        ((if id == j then serves r.0 r.1 else 0) + spare (raw_at E r.2 j) ≤ spare (raw_at E s j))
        × (is_budget (raw_at E r.2 j) ≡ true)
  unfolding served after_view granted
  consume_spares take id j s named h =
      let (spent, still) = step_budget E j (consumes take id) s named tt h in (omega arith, still)

  multi_view_spends :
      (env : RouteEnv) (id j : String) (w : World std E)
      → (j == "") ≡ false
      → is_budget (raw_at E w.views j) ≡ true
      → let r = multi_view_reveal std E env.take id (burn_route std E codec cfg env id) w in
        ((if id == j then given_out r.1 else 0) + exposure j r.2 ≤ exposure j w)
        × (is_budget (raw_at E r.2.views j) ≡ true)
  unfolding multi_view_reveal exposure
  multi_view_spends env id j w named h =
      let views' = (consume E env.take id w.views).2 in
      ground (
        arith,
        consume_spares env.take id j w.views named h,
        burn_route_spends env id j (record w { views = views' }),
      )

  reveal_route_spends :
      (env : RouteEnv) (id j : String) (w : World std E)
      → (j == "") ≡ false
      → is_budget (raw_at E w.views j) ≡ true
      → let r = reveal_route std E codec cfg env id w in
        ((if id == j then given_out r.1 else 0) + exposure j r.2 ≤ exposure j w)
        × (is_budget (raw_at E r.2.views j) ≡ true)
  unfolding reveal_route
  reveal_route_spends env id j w named h =
      let next = multi_view_reveal std E env.take id (burn_route std E codec cfg env id) in
      elim (reveal_gate_cases std E codec cfg.auth env.caller id next w) [
        | inl runs ↦ rw runs (multi_view_spends env id j w named h)
        | inr (no_success, same) ↦ (unfold exposure in ground arith, ground arith)
      ]

  -- Meta requests leave the budgets, and store no secret.
  meta_route_spends :
      (env : RouteEnv) (id j : String) (w : World std E)
      → let r = meta_route std E codec cfg env id w in
        (exposure j r.2 ≤ exposure j w) × (r.2.views ≡ w.views)
  unfolding meta_route on_secrets exposure annotate_views_meta
  meta_route_spends env id j w =
      let next =
        annotate_views_meta std E id
          (on_secrets std E codec cfg (meta_handler std E cfg.secrets env.handler id)) in
      elim (reveal_gate_cases std E codec cfg.auth env.caller id next w) [
        | inl runs ↦ rw runs (ground (arith, meta_spends env.handler id j w.secrets))
        | inr (no_success, same) ↦ (ground arith, ground arith)
      ]

  unfoldable pub after_visit : Visit → World std E → World std E
  after_visit (reveals env id) w = (reveal_route std E codec cfg env id w).2
  after_visit (metas env id) w = (meta_route std E codec cfg env id w).2

  -- One where a visit is answered with the ciphertext of the id.
  unfoldable pub revealed : String → Visit → World std E → ℕ
  revealed j (reveals env id) w =
      if id == j then given_out (reveal_route std E codec cfg env id w).1 else 0
  revealed j (metas env id) w = 0

  unfoldable pub revealed_in : String → List Visit → World std E → ℕ
  revealed_in j [] w = 0
  revealed_in j (v ∷ vs) w = revealed j v w + revealed_in j vs (after_visit v w)

  visit_spends :
      (j : String) (v : Visit) (w : World std E)
      → (j == "") ≡ false
      → is_budget (raw_at E w.views j) ≡ true
      → (revealed j v w + exposure j (after_visit v w) ≤ exposure j w)
        × (is_budget (raw_at E (after_visit v w).views j) ≡ true)
  unfolding revealed after_visit
  visit_spends j (reveals env id) w named h = reveal_route_spends env id j w named h
  visit_spends j (metas env id) w named h =
      let (less, same) = meta_route_spends env id j w in (omega arith, ground arith)

  -- In any sequence of requests to the reveal and the meta endpoints of any ids, by any callers, at
  -- any times and whatever the commits of the stores answer, the reveals of an id (not blank,
  -- with a budget, if it has one, of at least one view) that are answered 200 are at most its
  -- spare views, and one more where a secret stands under it.
  pub revealed-le-exposure :
      (j : String) (vs : List Visit) (w : World std E)
      → (j == "") ≡ false
      → is_budget (raw_at E w.views j) ≡ true
      → revealed_in j vs w ≤ exposure j w
  unfolding revealed_in
  revealed-le-exposure j [] w named h = omega arith
  revealed-le-exposure j (v ∷ vs) w named h =
      let (here, next) = visit_spends j v w named h in
      omega (arith, here, revealed-le-exposure j vs (after_visit v w) named next)
