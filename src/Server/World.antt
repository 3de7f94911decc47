-- ===== src/Server/World.antt =====
-- The stores that the edge of internal/server works on, and what its middleware reads of a request.
use secret_share.Files.Store.{FileStore}
use secret_share.Visibility.Store.{VisibilityStore}
use secret_share.Views.Store.{ViewsStore}
use secret_share.Users.Store.{UserStore}
use secret_share.Std.{Std}
use secret_share.Secrets.Store.{Store}
use secret_share.Prelude.{Option, ℕ, Bool, String, ℤ}
use secret_share.Http.{Reply}
use secret_share.Bolt.{Error, Engine}

module _ (std : Std) (E : Engine) where
  pub record World : Type 0 where
    pub secrets : Store E
    pub visibility : VisibilityStore E
    pub views : ViewsStore E
    pub users : UserStore std E
    pub files : FileStore E

  abbrev pub Handler : Type 0
  Handler = World → Reply World

-- The session cookie of a request, the time at which it is read, in Unix seconds, and the error of
-- the read transaction of IsPrivate, none where that runs.
pub record Caller : Type 0 where
  pub cookie : String
  pub seconds : ℕ
  pub view : Option Error

-- What json.Unmarshal makes of a create body for captureViews: its error, and the fields, which
-- are filled also where another field, or a repeated one, is in error.
pub record ViewsRequest : Type 0 where
  pub failed : Bool
  pub views : ℤ
  pub ciphertext : String
