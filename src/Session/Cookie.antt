-- ===== src/Session/Cookie.antt =====
-- The attributes of the session cookie, Set, Clear and Secure of internal/core/session/session.go.
use secret_share.Secrets.Handler.{add_duration}
use secret_share.Secret.{Time}
use secret_share.Prelude.{Bool, true, ◌*◌, ◌||◌, String, ◌==◌, ℤ, negsuc, pos}
use secret_share.Config.{second}

-- `max_age` is 0 where it is not set.
pub record Cookie : Type 0 where
  pub name : String
  pub value : String
  pub path : String
  pub expires : Time
  pub max_age : ℤ
  pub http_only : Bool
  pub secure : Bool
  pub same_site : String

abbrev pub cookie_name : String
cookie_name = "share_session"

-- time.Unix(0, 0).
abbrev pub unix_epoch : Time
unix_epoch = 62135596800 * second

-- `protocol` is c.Protocol().
unfoldable pub is_secure : String → Bool → Bool
is_secure protocol behind_tls_proxy = behind_tls_proxy || protocol == "https"

unfoldable pub set_session : String → Time → ℤ → Bool → Cookie
set_session value now ttl secure = record {
  name = cookie_name;
  value = value;
  path = "/";
  expires = add_duration now ttl;
  max_age = pos 0;
  http_only = true;
  secure = secure;
  same_site = "Lax";
}

unfoldable pub clear_session : Bool → Cookie
clear_session secure = record {
  name = cookie_name;
  value = "";
  path = "/";
  expires = unix_epoch;
  max_age = negsuc 0;
  http_only = true;
  secure = secure;
  same_site = "Lax";
}
