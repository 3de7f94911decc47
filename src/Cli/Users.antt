-- ===== src/Cli/Users.antt =====
-- The `user` commands over an open store, internal/cli/user.go. What they print is left out.
use secret_share.Users.Store.{get_user, UserStore, delete_user, upsert, count_by_role}
use secret_share.Users.Fields.{bad_length}
use secret_share.User.{
  source_oidc, normalize_email, source_local, parse_role, role_admin, set_password, User,
}
use secret_share.Std.{Std}
use secret_share.Secret.{Time}
use secret_share.Prelude.{
  ◌&&◌, ◌==◌, String, Option, ◌∷◌, false, Bool, not, some, true, ◌||◌, none, [], if◌then◌else◌, leb,
}
use secret_share.Http.{text}
use secret_share.Failure.{
  Failure, errorf, and_then, wrapping_store, passed, failing, wrapping, Checked,
}
use secret_share.Cli.Prompt.{Terminal, prompt_line, password_of}
use secret_share.Bolt.{Engine, Error}

-- What a command reads: the flags, the terminal, the clock, the hash that bcrypt gives for the
-- password (none for an error), and the answer of the commit of its write.
pub record CommandEnv : Type 0 where
  pub terminal : Terminal
  pub password : String
  pub now : Time
  pub hash : String → Option String
  pub save : Option Error

pub record CreateArgs : Type 0 where
  -- the positional argument, or else the flag
  pub email : String
  pub role : String
  pub oidc : Bool

-- The record that `&user.User{...}` makes.
abbrev pub bare_user : String → User
bare_user email = record {
  email = email;
  name = "";
  role = "";
  source = "";
  password_hash = "";
  pinned = false;
  enabled = true;
  subject = "";
  totp_enabled = false;
  totp_secret_enc = "";
  recovery_code_hashes = [];
  webauthn_handle = "";
  passkeys = "";
  created_at = 0;
  updated_at = 0;
  last_login_at = none;
}

-- `Enabled` and `Pinned` as a new role sets them.
unfoldable pub with_role : String → User → User
with_role role p = record p { role = role; pinned = role == role_admin }

abbrev pub bad_password : Failure
bad_password = errorf "password must be 8-72 characters" []

-- SetPassword with the checks in front of it, and the source that it makes.
unfoldable pub with_local_password : (String → Option String) → String → User → Checked User
with_local_password hash pw p =
    if bad_length pw then failing bad_password else elim (set_password (hash pw) p) [
      | none ↦ failing (wrapping "hash password: %w" [])
      | some q ↦ passed (record q { source = source_local })
    ]

-- The user that create writes, before its password.
abbrev pub base_user : String → String → Option User → User
base_user email role none = record (with_role role (bare_user email)) { enabled = true }
base_user email role (some p) = record (with_role role p) { enabled = true }

module _ (std : Std) (E : Engine) where
  -- The error of a command, and the store that it leaves.
  abbrev pub Ended : Type 0
  Ended = Option Failure × UserStore std E

  -- `if err := st.Users.Upsert(ctx, p); err != nil` and the end.
  unfoldable pub save_user_command : CommandEnv → User → UserStore std E → Ended
  save_user_command env p s =
      let (_, err, s') = upsert std E env.save env.now p s in
      elim err [ some e ↦ (some (wrapping_store "save user: %w" e), s') | none ↦ (none, s') ]

  -- A step that may fail, in front of the rest.
  abbrev pub go_on : {A : Type 0} → Checked A → UserStore std E → (A → Ended) → Ended
  go_on (failing e) s rest = (some e, s)
  go_on (passed a) s rest = rest a

  -- The lookup of the commands that need a user.
  unfoldable pub need_user :
      String → Option User × Option Error → UserStore std E → (User → Ended) → Ended
  need_user email (found, some e) s rest = (some (wrapping_store "lookup user: %w" e), s)
  need_user email (none, none) s rest = (some (errorf "no such user: %s" (text email ∷ [])), s)
  need_user email (some p, none) s rest = rest p

  unfoldable pub guard_last_admin : UserStore std E → Option Failure
  guard_last_admin s =
      let (n, err) = count_by_role std E role_admin s in
      elim err [
        | some e ↦ some (wrapping_store "count admins: %w" e)
        | none ↦
            if leb n 1
            then some (errorf "refusing to remove the last admin; create another admin first" [])
            else none
      ]

  -- The guard, where the user is an admin that is to be one no more.
  unfoldable pub guarded_command : Bool → UserStore std E → Ended → Ended
  guarded_command leaves s rest =
      if leaves then elim (guard_last_admin s) [ some e ↦ (some e, s) | none ↦ rest ] else rest

  -- The email of the arguments, or the answer to the question.
  unfoldable pub email_of : CommandEnv → CreateArgs → Checked String
  email_of env args =
      let email = normalize_email std args.email in
      if email == ""
      then and_then (prompt_line std env.terminal) (λ line. passed (normalize_email std line))
      else passed email

  -- With its credentials.
  unfoldable pub credentials : CommandEnv → CreateArgs → User → Checked User
  credentials env args p =
      if args.oidc
      then passed (if p.source == "" then record p { source = source_oidc } else p)
      else and_then (password_of std env.password env.terminal)
          (λ pw. with_local_password env.hash pw p)

  unfoldable pub create_found :
      CommandEnv
      → CreateArgs
      → String
      → String
      → Option User × Option Error
      → UserStore std E
      → Ended
  create_found env args email role (existing, some e) s =
      (some (wrapping_store "lookup user: %w" e), s)
  create_found env args email role (existing, none) s =
      go_on (credentials env args (base_user email role existing)) s
        (λ p. save_user_command env p s)

  unfoldable pub run_user_create : CommandEnv → CreateArgs → UserStore std E → Ended
  run_user_create env args s = go_on (email_of env args) s (λ email.
      if email == "" || not (std.contains email "@")
      then (some (errorf "a valid email is required" []), s)
      else (let (role, known) = parse_role std args.role in
          if not known
          then (some (errorf "invalid --role %q: want admin or user" (text args.role ∷ [])), s)
          else create_found env args email role (get_user std E email s) s))

  unfoldable pub run_user_delete : CommandEnv → String → UserStore std E → Ended
  run_user_delete env arg s =
      let email = normalize_email std arg in
      need_user email (get_user std E email s) s (λ p. guarded_command (p.role == role_admin) s (
        let (_, err, s') = delete_user std E env.save email s in
        elim err [ some e ↦ (some (wrapping_store "delete user: %w" e), s') | none ↦ (none, s') ]))

  unfoldable pub run_user_set_role : CommandEnv → String → String → UserStore std E → Ended
  run_user_set_role env arg role_arg s =
      let email = normalize_email std arg in
      let (role, known) = parse_role std role_arg in
      if not known
      then (some (errorf "invalid role %q: want admin or user" (text role_arg ∷ [])), s)
      else need_user email (get_user std E email s) s (λ p.
        guarded_command (p.role == role_admin && not (role == role_admin)) s
          (save_user_command env (with_role role p) s))

  unfoldable pub run_user_reset_password : CommandEnv → String → UserStore std E → Ended
  run_user_reset_password env arg s =
      let email = normalize_email std arg in
      need_user email (get_user std E email s) s (λ p.
        go_on (password_of std env.password env.terminal) s
          (λ pw. go_on (with_local_password env.hash pw p) s (λ q. save_user_command env q s)))
