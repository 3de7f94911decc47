-- ===== src/Account/Requests.antt =====
-- The requests to internal/domain/auth/account.go and internal/domain/auth/2fa.go as one step, and
-- what each of them has to prove.
use secret_share.User.{check_password, Bcrypt, User}
use secret_share.Std.{Std}
use secret_share.Session.{Codec}
use secret_share.Prelude.{◌==◌, arith, String, Option, none, false, some, true, ◌⊎◌, ◌≡◌}
use secret_share.Login.Handler.{Totp}
use secret_share.Bolt.{Engine}
use secret_share.Account.TwoFactor.{
  two_fa_regenerate, two_fa_setup, two_fa_disable, State, two_fa_confirm,
}
use secret_share.Account.Self.{AccountEnv, IsSelf, Outcome, safe_recover}
use secret_share.Account.Credentials.{change_password, PasswordBody, EmailBody, change_email}

-- A request with what its body parses to; for the second factor a password or a code.
pub data AccountRequest : Type 0 where
  setups confirms disables regenerates : Option String → AccountRequest
  renames : Option EmailBody → AccountRequest
  rekeys : Option PasswordBody → AccountRequest

module _ (std : Std) (E : Engine) (codec : Codec) (bcrypt : Bcrypt) (totp : Totp) where
  abbrev AccountState : Type 0
  AccountState = State std E codec bcrypt totp

  unfoldable pub account_request : AccountEnv → AccountRequest → AccountState → Outcome AccountState
  account_request env (setups body) s = two_fa_setup std E codec bcrypt totp env body s
  account_request env (confirms body) s = two_fa_confirm std E codec bcrypt totp env body s
  account_request env (disables body) s = two_fa_disable std E codec bcrypt totp env body s
  account_request env (regenerates body) s = two_fa_regenerate std E codec bcrypt totp env body s
  account_request env (renames body) s = change_email std E codec bcrypt totp env body s
  account_request env (rekeys body) s = change_password std E codec bcrypt totp env body s

  -- What a request leaves, also where its handler panics.
  unfoldable pub after_request : AccountEnv → AccountRequest → AccountState → AccountState
  unfolding account_request
  after_request env r s = (safe_recover (account_request env r s)).2

  -- The password that the user's hash is of.
  abbrev pub IsPassword : User → String → Type 0
  IsPassword p pw = ((p.password_hash == "") ≡ false) × (bcrypt.matches p.password_hash pw ≡ true)

  pub check_password-IsPassword :
      (p : User) (pw : String) → check_password bcrypt p pw ≡ true → IsPassword p pw
  unfolding check_password
  check_password-IsPassword p pw h = (ground arith, ground arith)

  -- The password of the user.
  abbrev pub KnowsPassword : User → Option String → Type 0
  KnowsPassword p body = (pw : String) × (body ≡ some pw) × IsPassword p pw

  -- A code that is good now for the secret of the pending enrolment.
  abbrev pub HoldsCode : User → Option String → Type 0
  HoldsCode p body =
      (code : String) × (secret : String) × (body ≡ some code)
      × (totp.open_box p.totp_secret_enc ≡ some secret)
      × (totp.validate (std.trim_space code) secret ≡ true)

  -- What a request has to show of the user that it changes.
  abbrev pub IsProof : AccountRequest → User → Type 0
  IsProof (setups body) p = KnowsPassword p body
  IsProof (confirms body) p = HoldsCode p body × (p.totp_enabled ≡ false)
  IsProof (disables body) p = KnowsPassword p body
  IsProof (regenerates body) p = KnowsPassword p body
  IsProof (renames none) p = ⊥
  IsProof (renames (some b)) p = KnowsPassword p (some b.password)
  IsProof (rekeys none) p = ⊥
  IsProof (rekeys (some b)) p = KnowsPassword p (some b.current_password)

  -- The users as they were, or a proof from the user of the session.
  abbrev pub IsAllowed : AccountEnv → AccountRequest → AccountState → AccountState → Type 0
  IsAllowed env r s t =
      (t.users ≡ s.users) ⊎ ((p : User) × IsSelf std E env.claims p s.users × IsProof r p)
