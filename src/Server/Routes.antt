-- ===== src/Server/Routes.antt =====
-- The routes of the secrets, internal/server/routes.go: the middleware in its order round the
-- handler. The rate limiter, a part of the web framework, lets these requests through.
use secret_share.Std.{Std}
use secret_share.Session.{Codec}
use secret_share.Server.World.{Handler, ViewsRequest, Caller}
use secret_share.Server.Multiview.{annotate_views_meta, multi_view_reveal, capture_views}
use secret_share.Server.Middleware.{
  reveal_gate, capture_visibility, require_auth, drop_visibility_on_burn,
}
use secret_share.Secrets.Store.{Store}
use secret_share.Secrets.Handler.{meta_handler, create_handler, Env, reveal_handler, CreateRequest}
use secret_share.Prelude.{Bool, String, Option}
use secret_share.Http.{Reply}
use secret_share.Config.{AuthConfig, SecretsConfig}
use secret_share.Bolt.{Engine, Error}

-- What the handlers and middleware of one request read from the world.
pub record RouteEnv : Type 0 where
  pub caller : Caller
  pub handler : Env
  -- the commits of SetPrivate, Put, Consume and Delete in the side stores
  pub mark : Option Error
  pub budget : Option Error
  pub take : Option Error
  pub drop : Option Error

-- A create body as its three readers decode it.
pub record CreateBody : Type 0 where
  pub parsed : Option CreateRequest
  pub views : ViewsRequest
  pub private : Option Bool

pub record ServerConfig : Type 0 where
  pub secrets : SecretsConfig
  pub auth : AuthConfig

module _ (std : Std) (E : Engine) (codec : Codec) (cfg : ServerConfig) where
  -- A handler of the secrets domain, over all the stores.
  unfoldable pub on_secrets : (Store E → Reply (Store E)) → Handler std E
  on_secrets h w = let (err, resp, s') = h w.secrets in (err, resp, record w { secrets = s' })

  unfoldable pub create_route : RouteEnv → CreateBody → Handler std E
  create_route env body = require_auth std E codec cfg.auth env.caller (
      capture_visibility std E codec cfg.auth env.mark body.private (
        capture_views std E cfg.secrets env.budget body.views
          (on_secrets (create_handler std E cfg.secrets env.handler body.parsed))))

  unfoldable pub meta_route : RouteEnv → String → Handler std E
  meta_route env id =
      reveal_gate std E codec cfg.auth env.caller id
        (annotate_views_meta std E id (on_secrets (meta_handler std E cfg.secrets env.handler id)))

  -- The real reveal behind the view budget.
  unfoldable pub burn_route : RouteEnv → String → Handler std E
  burn_route env id =
      drop_visibility_on_burn std E env.drop id
        (on_secrets (reveal_handler std E cfg.secrets env.handler id))

  unfoldable pub reveal_route : RouteEnv → String → Handler std E
  reveal_route env id =
      reveal_gate std E codec cfg.auth env.caller id
        (multi_view_reveal std E env.take id (burn_route env id))
