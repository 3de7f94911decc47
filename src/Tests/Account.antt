-- ===== src/Tests/Account.antt =====
-- Tests of the endpoints of the account.
use secret_share.Server.World.{Caller}
use secret_share.Server.Middleware.{verify_session}
use secret_share.Account.Gated.{account_request-verify_session}
use secret_share.Account.Requests.{after_request}
-- A session of the admin, with calls that all succeed.
use secret_share.Users.Store.{UserStore, upsert, key, stamp, get_user, storable}
use secret_share.User.{norm_recovery, User, check_password}
use secret_share.Tests.Fixtures.{
  with_auth, same_text, root_codec, root_claims, root_user, one_pair, one_user, plain,
}
use secret_share.Session.{verify, from_ctx}
use secret_share.Prelude.{none, ◌==◌, arith, ◌≡◌, List, true, refl, ◌∷◌, [], some}
use secret_share.Login.Handler.{Totp}
use secret_share.Http.{Reply}
use secret_share.Bolt.Memory.{memory}
use secret_share.Bolt.{opened, raw_at, json}
use secret_share.Account.TwoFactor.{
  two_fa_disable, hash_codes, issue_codes, two_fa_confirm, enroll_self, set_recovery_codes, State,
  save_self, two_fa_setup,
}
use secret_share.Account.Self.{
  IsSelf, answered, AccountEnv, local_self_user, safe_recover, with_self,
}
use secret_share.Account.Secured.Writes.{AreSecured}
use secret_share.Account.Secured.{after_account_requests, after_account_requests-AreSecured}
use secret_share.Account.Requests.{
  disables, IsAllowed, setups, AccountRequest, account_request, confirms,
}
use secret_share.Account.Refused.{account_request_refused, refused_answer}
use secret_share.Account.Proven.{account_request_proven}
use secret_share.Account.Credentials.{EmailBody}

abbrev root_session : AccountEnv
root_session = record {
  claims = some root_claims;
  now = 60;
  session_secret = "key";
  expiry = 1000;
  hash = some "new";
  enrollment = some (record { secret = "seed"; url = "otpauth"; qr_png_base64 = "png" });
  seal = λ s. some s;
  codes = some ("aaa" ∷ "bbb" ∷ []);
  salted = λ n s. some s;
  save = none;
  drop = none;
}

abbrev good_totp : Totp
good_totp = record { open_box = λ enc. some enc; validate = λ code secret. code == secret }

abbrev root_state : State plain memory root_codec same_text good_totp
root_state = record { users = one_user; cookie = none }

abbrev requests : List (AccountEnv × AccountRequest)
requests =
    (root_session, setups (some "hash"))
    ∷ (root_session, confirms (some "seed"))
    ∷ (root_session, disables (some "wrong"))
    ∷ []

after_setup :
    (get_user plain memory "root@x"
      (after_account_requests plain memory root_codec same_text good_totp requests
        root_state).users)
    ≡ (
      some (record root_user {
        updated_at = 60;
        totp_enabled = true;
        totp_secret_enc = "seed";
        recovery_code_hashes = "aaa" ∷ "bbb" ∷ [];
      }),
      none,
    )
unfolding after_request account_request two_fa_setup two_fa_confirm two_fa_disable with_self
    local_self_user get_user key memory one_user check_password enroll_self issue_codes
    set_recovery_codes hash_codes save_self upsert stamp storable safe_recover norm_recovery
after_setup = refl

account_request_proven_example :
    IsAllowed plain memory root_codec same_text good_totp root_session
      (disables (some "hash"))
      root_state
      (after_request plain memory root_codec same_text good_totp root_session
        (disables (some "hash"))
        root_state)
account_request_proven_example =
    account_request_proven plain memory root_codec same_text good_totp root_session
      (disables (some "hash")) root_state

one_user-AreSecured : AreSecured plain memory root_codec same_text good_totp one_user
unfolding raw_at memory one_user
one_user-AreSecured = record { at = λ k u h on. absurd (ground arith) }

after_account_requests-AreSecured_example :
    AreSecured plain memory root_codec same_text good_totp
      (after_account_requests plain memory root_codec same_text good_totp requests root_state).users
after_account_requests-AreSecured_example =
    after_account_requests-AreSecured plain memory root_codec same_text good_totp requests
      root_state one_user-AreSecured

-- The admin under an earlier email.
abbrev old_user : User
old_user = record root_user { email = "old@x" }

unfoldable old_users : UserStore plain memory
unfolding memory
old_users = opened (some (one_pair "old@x" (json old_user)))

abbrev old_state : State plain memory root_codec same_text good_totp
old_state = record { users = old_users; cookie = none }

abbrev old_session : AccountEnv
old_session = record root_session { claims = some (record root_claims { email = "old@x" }) }

abbrev to_root : EmailBody
to_root = record { email = "root@x"; password = "hash" }

-- The admin with a pending enrolment.
abbrev pending_user : User
pending_user = record root_user { totp_secret_enc = "seed" }

unfoldable pending_users : UserStore plain memory
unfolding memory
pending_users = opened (some (one_pair "root@x" (json pending_user)))

abbrev pending_state : State plain memory root_codec same_text good_totp
pending_state = record { users = pending_users; cookie = none }

-- A request without a session.
abbrev nobody : AccountEnv
nobody = record root_session { claims = none }

nobody_is_there : (p : User) → ¬ IsSelf plain memory nobody.claims p root_state.users
nobody_is_there p session = let clash : none ≡ some session.0 = session.1 in cc

account_request_refused_example :
    safe_recover (
      account_request plain memory root_codec same_text good_totp nobody
        (disables (some "hash"))
        root_state)
    ≡ refused_answer plain memory root_codec same_text good_totp (disables (some "hash")) root_state
account_request_refused_example =
    account_request_refused plain memory root_codec same_text good_totp nobody
      (disables (some "hash")) root_state nobody_is_there

abbrev root_caller : Caller
root_caller = record { cookie = "key"; seconds = 10; view = none }

root_passes :
    (verify_session plain memory root_codec with_auth root_caller root_state.users).0
    ≡ some root_claims
unfolding verify_session from_ctx verify root_codec get_user key memory one_user
root_passes = refl

account_request-verify_session_example :
    (a : Reply (State plain memory root_codec same_text good_totp)) × (account_request plain memory
        root_codec same_text good_totp root_session
        (setups (some "hash"))
        root_state
      ≡ answered a)
account_request-verify_session_example =
    account_request-verify_session plain memory root_codec same_text good_totp with_auth root_caller
      root_claims root_session (setups (some "hash")) root_state root_passes refl refl
