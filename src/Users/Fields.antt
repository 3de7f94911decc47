-- ===== src/Users/Fields.antt =====
-- The parts of the user management (internal/domain/users/handler.go): its requests, the fields
-- that an update changes, the lockout guard.
use secret_share.Users.Store.{UserStore, list_users}
use secret_share.User.{Role, parse_role, User, is_enabled_admin}
use secret_share.Std.{Std}
use secret_share.Secret.{Time}
use secret_share.Prelude.{
  String, true, ◌&&◌, Option, List, false, len, not, some, Bool, ◌∷◌, ◌||◌, ℕ, ◌==◌, none, [], pos,
  count_if, eqb, ltb, if◌then◌else◌,
}
use secret_share.Http.{Reply, Value, instant, internal, int, flag, text, not_found, error}
use secret_share.Bolt.{Engine, Error}

pub record CreateReq : Type 0 where
  pub email : String
  pub name : String
  pub role : String
  pub password : String
  pub enabled : Option Bool

pub record UpdateReq : Type 0 where
  pub name : Option String
  pub role : Option String
  pub enabled : Option Bool
  pub password : Option String
  pub clear_totp : Option Bool
  pub clear_passkeys : Option Bool

-- What a handler reads from the world: the clock, the hash that bcrypt gives (none for its error),
-- the answer of its commit.
pub record UserEnv : Type 0 where
  pub now : Time
  pub hash : Option String
  pub save : Option Error

abbrev pub or_true : Option Bool → Bool
or_true none = true
or_true (some b) = b

abbrev pub is_set : Option Bool → Bool
is_set none = false
is_set (some b) = b

-- A field with `omitempty`, left out at its zero value.
abbrev pub omit_text : String → String → List (String × Value) → List (String × Value)
omit_text name s rest = if s == "" then rest else (name, text s) ∷ rest

abbrev pub omit_time : String → Option Time → List (String × Value) → List (String × Value)
omit_time name none rest = rest
omit_time name (some t) rest = if eqb t 0 then rest else (name, instant t) ∷ rest

-- `passkey_count` is the number of records in the passkey blob, none where it does not decode.
unfoldable pub to_view : (String → Option ℕ) → User → List (String × Value)
to_view passkey_count p =
    ("email", text p.email)
    ∷ ("role", text p.role)
    ∷ ("source", text p.source)
    ∷ ("pinned", flag p.pinned)
    ∷ ("enabled", flag p.enabled)
    ∷ ("has_password", flag (not (p.password_hash == "")))
    ∷ ("totp_enabled", flag p.totp_enabled)
    ∷ ("passkey_count", int (pos (elim (passkey_count p.passkeys) [ none ↦ 0 | some n ↦ n ])))
    ∷ omit_text "name" p.name (
        omit_text "subject" p.subject (
          omit_time "created_at" (some p.created_at) (
            omit_time "updated_at" (some p.updated_at)
              (omit_time "last_login_at" p.last_login_at []))))

-- A password of the accepted length, in bytes.
abbrev pub bad_length : String → Bool
bad_length pw = ltb (len pw) 8 || ltb 72 (len pw)

unfoldable pub update_name : (String → String) → Option String → User → User
update_name trim none p = p
update_name trim (some n) p = record p { name = trim n }

unfoldable pub update_enabled : Option Bool → User → User
update_enabled none p = p
update_enabled (some b) p = record p { enabled = b }

unfoldable pub clear_totp_of : Option Bool → User → User
clear_totp_of o p =
    if is_set o
    then record p { totp_enabled = false; totp_secret_enc = ""; recovery_code_hashes = [] }
    else p

unfoldable pub clear_passkeys_of : Option Bool → User → User
clear_passkeys_of o p = if is_set o then record p { passkeys = ""; webauthn_handle = "" } else p

-- What Update and Delete make of a lookup: an error, no user, or a user to go on with.
unfoldable pub with_user :
    {S : Type 0} → Option User × Option Error → S → (User → Reply S) → Reply S
with_user (found, some e) s go = internal s
with_user (none, none) s go = not_found "user not found" s
with_user (some p, none) s go = go p

-- What Create makes of a lookup: an error, a user that is there, or none.
unfoldable pub if_free : {S : Type 0} → Option User × Option Error → S → Reply S → Reply S
if_free (found, some e) s go = internal s
if_free (some old, none) s go = error 409 (text "a user with that email already exists") s
if_free (none, none) s go = go

module _ (std : Std) (E : Engine) where
  unfoldable pub other_enabled_admins : String → UserStore std E → ℕ × Option Error
  other_enabled_admins exclude s =
      let (ps, err) = list_users std E s in
      elim err [
        | some e ↦ (0, some e)
        | none ↦ (count_if (λ p. not (p.email == exclude) && is_enabled_admin p) ps, none)
      ]

  -- The lockout guard: the user is an enabled admin, and no other is.
  unfoldable pub guard_lockout :
      Value → Bool → String → UserStore std E → Reply (UserStore std E) → Reply (UserStore std E)
  guard_lockout msg leaves email s rest =
      if leaves
      then (let (others, err) = other_enabled_admins email s in
          elim err [ some e ↦ internal s | none ↦ if eqb others 0 then error 400 msg s else rest ])
      else rest

module _ (std : Std) where
  -- The role of the request, none where it is not known.
  unfoldable pub update_role : Option String → User → Option User
  update_role none p = some p
  update_role (some r) p =
      let (role, known) = parse_role std r in
      if known then some (record p { role = role }) else none

  -- The user that Create builds, before its password.
  unfoldable pub new_user : String → Role → CreateReq → User
  new_user email role req = record {
    email = email;
    name = std.trim_space req.name;
    role = role;
    source = "";
    password_hash = "";
    pinned = false;
    enabled = or_true req.enabled;
    subject = "";
    totp_enabled = false;
    totp_secret_enc = "";
    recovery_code_hashes = [];
    webauthn_handle = "";
    passkeys = "";
    created_at = 0;
    updated_at = 0;
    last_login_at = none;
  }
