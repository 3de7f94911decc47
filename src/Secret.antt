-- ===== src/Secret.antt =====
-- A shared secret and its lifetime (internal/models/secret/secret.go). A time is a number of
-- nanoseconds since Go's zero time.
use secret_share.Prelude.{ℕ, ◌*◌, String, Bool, not, ◌&&◌, ltb, eqb}

abbrev pub Time : Type 0
Time = ℕ

pub record Secret : Type 0 where
  pub id : String
  pub ciphertext : String
  pub created_at : Time
  pub expires_at : Time
  pub size : ℕ

abbrev is_zero : Time → Bool
is_zero t = eqb t 0

-- `now.After(t)`
abbrev after : Time → Time → Bool
after now t = ltb t now

unfoldable pub is_expired : Secret → Time → Bool
is_expired s now = not (is_zero s.expires_at) && after now s.expires_at

-- encoding/json refuses a time past the year 9999.
abbrev pub year_10000 : Time
year_10000 = 3652059 * 86400 * 1000000000

unfoldable pub encodable : Secret → Bool
encodable s = ltb s.created_at year_10000 && ltb s.expires_at year_10000
