-- ===== src/Tests/Server.antt =====
-- Tests of the routes, the middleware and the session cookies.
use secret_share.Users.Store.{key, get_user}
use secret_share.Secrets.Store.{create}
use secret_share.Secrets.Handler.{save_secret, resolve_ttl, size_limit, new_secret, create_handler}
use secret_share.Secret.{encodable}
use secret_share.Config.{max_ttl_duration}
use secret_share.Visibility.Store.{is_private, set_private}
use secret_share.Views.Store.{consume, BudgetBytes}
use secret_share.Views.Budget.{is_budget}
use secret_share.Tests.Fixtures.{
  one_user, one_secret, one_budget, two_views, no_auth, plain, world, guest, with_auth, root_claims,
  root_codec, server,
}
use secret_share.Session.RoundTrip.{IsGenuine, from_ctx-IsGenuine}
use secret_share.Session.{verify, from_ctx, sign}
use secret_share.Server.World.{Handler, World, Caller, ViewsRequest}
use secret_share.Server.Routes.{
  on_secrets, create_route, meta_route, reveal_route, RouteEnv, CreateBody,
}
use secret_share.Server.Privacy.{create_route-gated}
use secret_share.Server.Multiview.{record_views, capture_views, multi_view_reveal, max_views}
use secret_share.Server.Middleware.{
  capture_visibility, verify_session, with_session, require_auth, reveal_gate,
}
use secret_share.Server.Budgeted.{reveal_times, reveal_times-countdown, countdown}
use secret_share.Server.Access.{HasSession, reveal_gate_lem, guarded}
use secret_share.Prelude.{
  sym, ◌∙◌, ◌≡◌, arith, [], some, ◌∷◌, refl, ◌≤◌, true, false, List, ◌≢◌, none, ◌⊎◌, pos,
}
use secret_share.Http.{is_success, text, body_id, unauthorized, internal, reply, Reply}
use secret_share.Bolt.Memory.{memory}
use secret_share.Bolt.{opened, raw_at, json}
use secret_share.Server.Exposure.{
  revealed-le-exposure, reveals, Visit, exposure, revealed_in, metas,
}

abbrev visits : List Visit
visits =
    metas (guest 50 "b") "a"
    ∷ reveals (guest 50 "b") "a"
    ∷ reveals (guest 50 "b") "a"
    ∷ reveals (guest 50 "b") "a"
    ∷ []

budget_is_sane : is_budget (raw_at memory world.views "a") ≡ true
unfolding raw_at memory one_budget
budget_is_sane = refl

revealed-le-exposure_example :
    revealed_in plain memory root_codec (server no_auth) "a" visits world
    ≤ exposure plain memory root_codec (server no_auth) "a" world
revealed-le-exposure_example =
    revealed-le-exposure plain memory root_codec (server no_auth) "a" visits world refl
      budget_is_sane

-- The handler behind a budget, one that always fails.
abbrev broken : Handler plain memory
broken w = internal w

budget_at : raw_at memory world.views "a" ≡ some (json two_views)
unfolding raw_at memory one_budget
budget_at = refl

writable_a : (b : memory.Bucket BudgetBytes) (raw : BudgetBytes) → memory.put b "a" raw ≢ none
unfolding memory
writable_a b raw = cc

reveal_times-countdown_example :
    let (answers, w') = reveal_times plain memory 1 "a" broken world in
    let views' = (consume memory none "a" w'.views).2 in
    (answers ≡ countdown "ct" 1)
    × (w'.secrets ≡ world.secrets)
    × (multi_view_reveal plain memory none "a" broken w' ≡ broken (record w' { views = views' }))
    × (raw_at memory views' "a" ≡ none)
reveal_times-countdown_example =
    reveal_times-countdown plain memory 1 "a" broken world two_views refl writable_a budget_at refl
      (omega arith)

abbrev three_views : ViewsRequest
three_views = record { failed = false; views = pos 3; ciphertext = "ct" }

abbrev created : Handler plain memory
created w = reply 201 (("id", text "b") ∷ []) w

abbrev root_caller : Caller
root_caller = record { cookie = "key"; seconds = 10; view = none }

abbrev private_world : World plain memory
private_world = record world { visibility = (set_private memory none "a" (opened none)).2 }

a_is_private : guarded plain memory root_codec with_auth "a" private_world ≡ true
unfolding set_private is_private memory
a_is_private = refl

reveal_gate_lem_example :
    let r = reveal_gate plain memory root_codec with_auth root_caller "a" created private_world in
    (HasSession plain memory root_codec with_auth root_caller private_world.users
      × (r ≡ created private_world))
    ⊎ (((r.1.status ≡ 401) ⊎ (r.1.status ≡ 500)) × (r.2 ≡ private_world))
reveal_gate_lem_example =
    reveal_gate_lem plain memory root_codec with_auth root_caller "a" created private_world refl
      a_is_private

-- A create for a private secret by the admin, and a guest.
abbrev admin_env : RouteEnv
admin_env = record (guest 50 "b") { caller = root_caller }

abbrev private_body : CreateBody
private_body = record {
  parsed = some (record { ttl = "1h"; ciphertext = "ct" });
  views = record { failed = false; views = pos 0; ciphertext = "ct" };
  private = some true;
}

abbrev private_create : Reply (World plain memory)
private_create =
    create_route plain memory root_codec (server with_auth) admin_env private_body world

private_create_answers :
    (private_create.0 ≡ none)
    × (is_success private_create.1.status ≡ true)
    × (body_id private_create.1.body ≡ some "b")
unfolding create_route require_auth with_session verify_session from_ctx verify root_codec get_user
    capture_visibility capture_views max_views record_views on_secrets create_handler size_limit
    resolve_ttl max_ttl_duration new_secret save_secret create encodable body_id memory one_user
    one_secret key
private_create_answers = (refl, refl, refl)

mark_is_written : (set_private memory none "b" (opened none)).1 ≡ none
unfolding set_private memory
mark_is_written = refl

guest_has_none : from_ctx root_codec 0 "" "key" ≡ none
unfolding from_ctx
guest_has_none = refl

guest_is_stranger :
    ¬ HasSession plain memory root_codec with_auth (guest 60 "c").caller private_create.2.users
guest_is_stranger session =
    let clash : none ≡ some session.claims = sym guest_has_none ∙ session.cookie in cc

create_route-gated_example :
    let w' = private_create.2 in
    let reveal = reveal_route plain memory root_codec (server with_auth) (guest 60 "c") "b" w' in
    let peek = meta_route plain memory root_codec (server with_auth) (guest 60 "c") "b" w' in
    (is_private memory "b" w'.visibility ≡ true)
    × ((reveal ≡ unauthorized "" w') ⊎ (reveal ≡ internal w'))
    × ((peek ≡ unauthorized "" w') ⊎ (peek ≡ internal w'))
create_route-gated_example =
    create_route-gated plain memory root_codec (server with_auth) admin_env (guest 60 "c")
      private_body world "b" none refl refl refl mark_is_written private_create_answers.0
      private_create_answers.1 private_create_answers.2 refl guest_is_stranger

root_signs : sign root_codec root_claims "key" 1000 ≡ some "key"
unfolding sign root_codec
root_signs = refl

root_is_known : from_ctx root_codec 10 "key" "key" ≡ some root_claims
unfolding from_ctx verify root_codec
root_is_known = refl

from_ctx-IsGenuine_example : IsGenuine root_codec 10 "key" "key" root_claims
from_ctx-IsGenuine_example = from_ctx-IsGenuine root_codec 10 "key" "key" root_claims root_is_known
