-- ===== src/Server/FileRoutes.antt =====
-- The routes of the encrypted files, internal/server/routes.go: the middleware in its order round
-- the handler. They are mounted where files.enabled is set.
use secret_share.Std.{Std}
use secret_share.Session.{Codec}
use secret_share.Server.World.{Caller, Handler}
use secret_share.Server.Routes.{ServerConfig}
use secret_share.Server.Middleware.{
  reveal_gate, drop_visibility_on_burn, require_auth, capture_file_visibility,
}
use secret_share.Prelude.{Option, String, Bool}
use secret_share.Http.{Reply}
use secret_share.Files.Store.{Blob, Base64, FileStore}
use secret_share.Files.Handler.{
  reveal_file_handler, create_file_handler, meta_file_handler, FileEnv,
}
use secret_share.Config.{FilesConfig}
use secret_share.Bolt.{Engine, Error}

pub record FileRouteEnv : Type 0 where
  pub caller : Caller
  pub handler : FileEnv
  -- the commits of SetPrivate and Delete in the store of private marks
  pub mark : Option Error
  pub drop : Option Error

-- What a create reads of its request: two headers and the body. `private` is whether the header
-- X-Share-Private, trimmed, is "true" in any case of letters.
pub record Upload : Type 0 where
  pub ttl : String
  pub private : Bool
  pub body : Blob

module _ (std : Std) (E : Engine) (b64 : Base64) (codec : Codec) (cfg : ServerConfig)
    (files : FilesConfig) where
  -- A handler of the files domain, over all the stores.
  unfoldable pub on_files : (FileStore E → Reply (FileStore E)) → Handler std E
  on_files h w = let (err, resp, s') = h w.files in (err, resp, record w { files = s' })

  unfoldable pub create_file_route : FileRouteEnv → Upload → Handler std E
  create_file_route env up = require_auth std E codec cfg.auth env.caller (
      capture_file_visibility std E cfg.auth env.mark up.private
        (on_files (create_file_handler std E b64 cfg.secrets files env.handler up.ttl up.body)))

  unfoldable pub meta_file_route : FileRouteEnv → String → Handler std E
  meta_file_route env id =
      reveal_gate std E codec cfg.auth env.caller id
        (on_files (meta_file_handler E b64 env.handler id))

  unfoldable pub reveal_file_route : FileRouteEnv → String → Handler std E
  reveal_file_route env id = reveal_gate std E codec cfg.auth env.caller id (
      drop_visibility_on_burn std E env.drop id
        (on_files (reveal_file_handler E b64 env.handler id)))
