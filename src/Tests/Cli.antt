-- ===== src/Tests/Cli.antt =====
-- Tests of the commands.
use secret_share.Users.Store.{
  count_by_role, stamp, list_users, key, upsert, delete_user, count_role, storable, collect,
  UserStore, get_user,
}
use secret_share.Users.Lockout.{IsKeyed}
use secret_share.User.{normalize_email, set_password, User, parse_role}
use secret_share.Tests.Fixtures.{root_user, same_text, one_user, plain}
use secret_share.Prelude.{
  eq_refl, ◌==◌, if◌then◌else◌, arith, List, eq_iff, [], ◌≡◌, false, ◌∷◌, refl, some, none,
}
use secret_share.Failure.{and_then}
use secret_share.Cli.Users.{
  email_of, run_user_create, guard_last_admin, credentials, with_local_password, guarded_command,
  CommandEnv, with_role, need_user, CreateArgs, create_found, save_user_command, run_user_delete,
}
use secret_share.Cli.Prompt.{Terminal}
use secret_share.Cli.Created.{run_user_create_lem, CanSignIn, IsHashing}
use secret_share.Cli.Commands.{
  removes, regrades, resets, after_commands-HasAdminRole, after_commands, Command,
}
use secret_share.Cli.Admins.{HasAdminRole}
use secret_share.Bolt.Memory.{memory}
use secret_share.Bolt.{opened, json, raw_at}

abbrev no_terminal : Terminal
no_terminal = record {
  is_terminal = false;
  line = "piped-password";
  ended = false;
  first = none;
  second_time = none;
}

abbrev command_env : CommandEnv
command_env = record {
  terminal = no_terminal;
  password = "password";
  now = 40;
  hash = λ pw. if pw == "" then none else some pw;
  save = none;
}

one_user-IsKeyed : IsKeyed plain memory one_user
unfolding raw_at memory one_user
one_user-IsKeyed = record { at = λ k u h. ground (arith, eq_iff "root@x" k) }

root_is_stored : raw_at memory one_user "root@x" ≡ some (json root_user)
unfolding raw_at memory one_user
root_is_stored = refl

one_user-HasAdminRole : HasAdminRole plain memory one_user
one_user-HasAdminRole = ("root@x", root_user, root_is_stored, refl)

-- The only admin is deleted, demoted, and gets a password.
abbrev commands : List (CommandEnv × Command)
commands =
    (command_env, removes "root@x")
    ∷ (command_env, regrades "root@x" "user")
    ∷ (command_env, resets "root@x")
    ∷ []

after_commands-HasAdminRole_example :
    HasAdminRole plain memory (after_commands plain memory commands one_user)
after_commands-HasAdminRole_example =
    after_commands-HasAdminRole plain memory commands one_user one_user-IsKeyed
      one_user-HasAdminRole

-- The guard counts a disabled admin, so the last enabled one can be deleted.
abbrev sleeping : User
sleeping = record root_user { email = "eve@x"; enabled = false }

unfoldable two_admins : UserStore plain memory
unfolding memory
two_admins =
    opened (some ((("root@x", json root_user) ∷ ("eve@x", json sleeping) ∷ []), (refl, (refl, tt))))

last_enabled_is_deleted :
    list_users plain memory (run_user_delete plain memory command_env "root@x" two_admins).1
    ≡ (sleeping ∷ [], none)
unfolding list_users collect run_user_delete need_user guarded_command guard_last_admin
    count_by_role count_role get_user key delete_user memory two_admins
last_enabled_is_deleted = refl

-- A creation with another role demotes the only admin without asking the guard.
abbrev as_user : CreateArgs
as_user = record { email = "root@x"; role = "user"; oidc = false }

only_admin_is_demoted :
    list_users plain memory (run_user_create plain memory command_env as_user one_user).1 ≡ (
      record root_user {
        role = "user";
        source = "local";
        password_hash = "password";
        pinned = false;
        updated_at = 40;
      }
          ∷ [],
      none,
    )
unfolding list_users collect run_user_create email_of create_found credentials with_role
    with_local_password set_password parse_role save_user_command upsert stamp storable get_user key
    memory one_user and_then
only_admin_is_demoted = refl

text-IsHashing : IsHashing same_text command_env.hash
text-IsHashing = record {
  matches_own = λ pw h e. ground (arith, eq_refl pw);
  not_blank = λ pw h e. ground arith;
}

create_passes : (run_user_create plain memory command_env as_user one_user).0 ≡ none
unfolding run_user_create email_of create_found credentials with_role with_local_password
    set_password parse_role save_user_command upsert stamp storable get_user key memory one_user
    and_then
create_passes = refl

run_user_create_lem_example :
    (u : User) × (get_user plain memory "root@x"
        (run_user_create plain memory command_env as_user one_user).1
      ≡ (some u, none))
    × CanSignIn plain memory same_text (parse_role plain "user").0 false "password" u
run_user_create_lem_example =
    run_user_create_lem plain memory same_text command_env as_user one_user one_user-IsKeyed
      text-IsHashing refl (unfold normalize_email in refl) create_passes
