-- ===== src/Tests/Login.antt =====
-- Tests of the password login.
use secret_share.Server.World.{Caller, Handler}
use secret_share.Server.SignedIn.{with_session-login}
use secret_share.Server.Middleware.{with_session, verify_session}
use secret_share.Login.Probe.{shown_of, Shown, me-verify_session, IsStale, me, IsAgreed}
use secret_share.Http.{text, unauthorized, ok}
use secret_share.Bolt.{json, raw_at, opened}
use secret_share.Users.Store.{get_user, key}
use secret_share.User.{
  normalize_email, norm_recovery, consume_recovery_code, consume_hash, User, check_password,
}
use secret_share.Tests.Fixtures.{
  root_claims, world, with_auth, same_text, root_user, root_codec, plain, one_user,
}
use secret_share.Session.{verify, Claims, from_ctx, sign}
use secret_share.Prelude.{
  not, ◌&&◌, ◌⊎◌, ltb, if◌then◌else◌, [], ◌∷◌, false, ◌≡◌, none, true, refl, some,
}
use secret_share.Login.Handler.{
  second_step, mint_session, check_login, LoginBody, LoginEnv, Totp, password_login,
}
use secret_share.Bolt.Memory.{memory}

abbrev no_totp : Totp
no_totp = record { open_box = λ enc. none; validate = λ code secret. false }

abbrev login_env : LoginEnv
login_env = record {
  enabled = true;
  local_login = true;
  session_secret = "key";
  login = 70;
  expiry = 1000;
  use_code = none;
  save = none;
}

abbrev login_body : LoginBody
login_body = record { email = "root@x"; password = "hash"; code = "" }

login_sets_cookie :
    let r =
      password_login plain memory root_codec same_text no_totp login_env
        (some login_body)
        one_user in
    r.2.cookie ≡ some "key"
unfolding password_login check_login second_step check_password mint_session sign root_codec
    get_user key memory one_user
login_sets_cookie = refl

abbrev coded_user : User
coded_user = record root_user { recovery_code_hashes = "x" ∷ "y" ∷ [] }

code_is_used :
    consume_recovery_code plain same_text coded_user "y"
    ≡ some (record root_user { recovery_code_hashes = "x" ∷ [] })
unfolding consume_recovery_code norm_recovery consume_hash
code_is_used = refl

-- The admin comes back with the cookie.
abbrev back : Caller
back = record { cookie = "key"; seconds = 10; view = none }

root_is_found : (get_user plain memory (normalize_email plain "root@x") one_user).0 ≡ some root_user
unfolding get_user key normalize_email memory one_user
root_is_found = refl

root_is_stored :
    raw_at memory world.users (normalize_email plain root_user.email) ≡ some (json root_user)
unfolding raw_at normalize_email memory one_user
root_is_stored = refl

abbrev greeted : Claims → Handler plain memory
greeted c w = ok (("name", text c.email) ∷ []) w

with_session-login_example :
    (c : Claims) × (normalize_email plain c.email ≡ normalize_email plain root_user.email)
    × (with_session plain memory root_codec with_auth back greeted world ≡ (
        if not (ltb 1000 10) && true
        then greeted (record c { role = root_user.role; exp = 1000 }) world
        else unauthorized "" world))
with_session-login_example =
    with_session-login plain memory root_codec same_text no_totp with_auth login_env login_body
      one_user root_user root_user "key" back greeted world root_is_found login_sets_cookie refl
      refl refl root_is_stored

me-verify_session_example :
    let shown = (me plain memory root_codec with_auth back one_user).user in
    ((shown ≡ none)
      × (verify_session plain memory root_codec with_auth back one_user ≡ (none, none)))
    ⊎ ((u : Shown) × (shown ≡ some u)
        × (IsAgreed plain memory root_codec with_auth back one_user u
            ⊎ IsStale plain memory root_codec with_auth back one_user u))
me-verify_session_example = me-verify_session plain memory root_codec with_auth back one_user refl

-- The user of the cookie is gone: Me shows an admin, whom the gate refuses.
deleted_is_shown :
    ((me plain memory root_codec with_auth back (opened none)).user ≡ some (shown_of root_claims))
    × (verify_session plain memory root_codec with_auth back (opened none) ≡ (none, none))
unfolding me verify_session from_ctx verify root_codec get_user
deleted_is_shown = (refl, refl)
