-- ===== src/User.antt =====
-- Console users and their roles, internal/models/user/user.go. A role is a text, as in the code.
use secret_share.Std.{Std}
use secret_share.Secret.{Time}
use secret_share.Prelude.{
  ◌&&◌, ◌∙◌, String, Bool, true, ◌∷◌, false, Option, none, ap, some, ◌==◌, ◌||◌, ◌≡◌, List, [],
  if◌then◌else◌,
}
use mathlib.Core.Option

-- The code's Role, whose two values are these.
abbrev pub Role : Type 0
Role = String

abbrev pub role_admin : Role
role_admin = "admin"

abbrev pub role_user : Role
role_user = "user"

abbrev pub source_local : String
source_local = "local"

abbrev pub source_oidc : String
source_oidc = "oidc"

unfoldable pub valid : Role → Bool
valid r = r == role_admin || r == role_user

unfoldable pub allows : Role → Role → Bool
allows r want = if r == role_admin then true else r == want

pub record User : Type 0 where
  pub email : String
  pub name : String
  pub role : Role
  pub source : String
  pub password_hash : String
  pub pinned : Bool
  pub enabled : Bool
  pub subject : String
  pub totp_enabled : Bool
  pub totp_secret_enc : String
  pub recovery_code_hashes : List String
  pub webauthn_handle : String
  pub passkeys : String
  pub created_at : Time
  pub updated_at : Time
  pub last_login_at : Option Time

module _ (std : Std) where
  open std use {trim_space, to_lower}

  unfoldable pub parse_role : String → Role × Bool
  parse_role s =
      let r = to_lower (trim_space s) in
      if r == role_admin
      then (role_admin, true)
      else if r == role_user
      then (role_user, true)
      else (role_user, false)

  unfoldable pub normalize_email : String → String
  normalize_email email = to_lower (trim_space email)

  -- A normal form stays as it is.
  pub normalize_email_idem : (e : String) → normalize_email (normalize_email e) ≡ normalize_email e
  unfolding normalize_email
  normalize_email_idem e =
      ap to_lower (std.trim-to_lower (trim_space e))
      ∙ std.to_lower_idem (trim_space (trim_space e))
      ∙ ap to_lower (std.trim_space_idem e)

  -- A recovery code without its formatting.
  unfoldable pub norm_recovery : String → String
  norm_recovery s = std.replace_all (std.replace_all (to_lower (trim_space s)) "-" "") " " ""

-- bcrypt, a third-party package: whether a hash is of a password. A hash that a call of
-- GenerateFromPassword gave is an input of the operation that makes the call.
pub record Bcrypt : Type 0 where
  pub matches : String → String → Bool

-- Password and recovery codes of a user.
module _ (bcrypt : Bcrypt) where
  unfoldable pub check_password : User → String → Bool
  check_password p plain =
      if p.password_hash == "" then false else bcrypt.matches p.password_hash plain

  -- The hashes without the first that matches, if one does.
  unfoldable pub consume_hash : String → List String → Option (List String)
  consume_hash norm [] = none
  consume_hash norm (h ∷ hs) =
      let rest = Option.map (λ l. h ∷ l) (consume_hash norm hs) in
      if bcrypt.matches h norm then some hs else rest

module _ (std : Std) (bcrypt : Bcrypt) where
  -- The user that is left, if the code is good.
  unfoldable pub consume_recovery_code : User → String → Option User
  consume_recovery_code p code =
      let norm = norm_recovery std code in
      if norm == ""
      then none
      else Option.map (λ hs. record p { recovery_code_hashes = hs })
          (consume_hash bcrypt norm p.recovery_code_hashes)

-- The hash that GenerateFromPassword gave, none for its error.
unfoldable pub set_password : Option String → User → Option User
set_password none p = none
set_password (some h) p = some (record p { password_hash = h })

unfoldable pub is_enabled_admin : User → Bool
is_enabled_admin p = p.role == role_admin && p.enabled
