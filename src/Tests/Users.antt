-- ===== src/Tests/Users.antt =====
-- Tests of the user management.
use secret_share.Server.World.{Caller}
use secret_share.Server.Admin.{IsGuarded, users_route-IsGuarded, users_route}
use secret_share.Users.Store.{key, storable, upsert, delete_user, stamp}
use secret_share.Users.Manned.{IsManned}
use secret_share.Users.Fields.{UserEnv}
use secret_share.User.{is_enabled_admin, User}
use secret_share.Tests.Fixtures.{with_auth, world, root_codec, plain, root_user, one_user}
use secret_share.Prelude.{
  ◌⊎◌, eq_iff, arith, none, [], List, some, String, Option, refl, ◌∷◌, ℕ, true, ◌≡◌,
}
use secret_share.Bolt.Memory.{memory}
use secret_share.Bolt.{json, raw_at}
use secret_share.Users.Requests.{
  updates, after_requests-IsManned, after_requests, deletes, Request, creates,
}

abbrev env : UserEnv
env = record { now = 5; hash = some "h"; save = none }

-- The only admin is deleted, and is demoted; another admin is made, and the first one is deleted.
abbrev requests : List Request
requests =
    deletes env "root@x"
    ∷ updates env "root@x" (
        some (record {
          name = none;
          role = some "user";
          enabled = none;
          password = none;
          clear_totp = none;
          clear_passkeys = none;
        }))
    ∷ creates env (
        some (record { email = "eve@x"; name = ""; role = "admin"; password = ""; enabled = none }))
    ∷ deletes env "root@x"
    ∷ []

abbrev no_passkeys : String → Option ℕ
no_passkeys blob = none

one_user-IsKeyed : (k : String) (u : User) → raw_at memory one_user k ≡ some (json u) → u.email ≡ k
unfolding raw_at memory one_user
one_user-IsKeyed k u h = ground (arith, eq_iff "root@x" k)

root_stands : raw_at memory one_user "root@x" ≡ some (json root_user)
unfolding raw_at memory one_user
root_stands = refl

root_is_admin : is_enabled_admin root_user ≡ true
unfolding is_enabled_admin
root_is_admin = refl

one_user-IsManned : IsManned plain memory no_passkeys one_user
one_user-IsManned = record {
  keyed = record { at = one_user-IsKeyed };
  admin = ("root@x", root_user, root_stands, root_is_admin);
}

after_requests-IsManned_example :
    IsManned plain memory no_passkeys (after_requests plain memory no_passkeys requests one_user)
after_requests-IsManned_example =
    after_requests-IsManned plain memory no_passkeys requests one_user one_user-IsManned

upsert_is_fine : (upsert plain memory none 9 root_user one_user).1 ≡ none
unfolding upsert memory one_user storable stamp key
upsert_is_fine = refl

delete_is_fine : (delete_user plain memory none "root@x" one_user).1 ≡ none
unfolding delete_user memory one_user
delete_is_fine = refl

abbrev root_session : Caller
root_session = record { cookie = "key"; seconds = 10; view = none }

users_route-IsGuarded_example :
    let w' =
      (users_route plain memory root_codec no_passkeys with_auth root_session
        (deletes env "root@x")
        world).2 in
    (w' ≡ world) ⊎ IsGuarded plain memory root_codec no_passkeys with_auth root_session world w'
users_route-IsGuarded_example =
    users_route-IsGuarded plain memory root_codec no_passkeys with_auth root_session
      (deletes env "root@x") world
