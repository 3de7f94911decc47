-- ===== src/Account/Self.antt =====
-- localSelfUser of internal/domain/auth/2fa.go and what its callers make of it. The code goes on
-- with a nil user after a refusal, so a handler may panic; safeRecover of internal/server/server.go
-- turns that into an answer.
use secret_share.Users.Store.{UserStore, get_user}
use secret_share.User.{User}
use secret_share.Std.{Std}
use secret_share.Session.{Claims}
use secret_share.Secret.{Time}
use secret_share.Prelude.{
  ℕ, ◌==◌, Option, List, none, refl, ◌≡◌, true, arith, String, some, if◌then◌else◌,
}
use secret_share.Http.{Reply, bytes, Response, internal, unauthorized}
use secret_share.Bolt.{Error, Engine}

-- How a handler ends.
pub data Outcome (S : Type 0) : Type 0 where
  answered : Reply S → Outcome S
  -- a nil user was read
  panicked : S → Outcome S

-- What safeRecover makes of it: a panic is an internal error, over whatever was written before.
unfoldable pub safe_recover : {S : Type 0} → Outcome S → Reply S
safe_recover (answered r) = r
safe_recover (panicked s) = internal s

-- What totp.Enroll gives: the secret, the address and the picture of it.
pub record Enrollment : Type 0 where
  pub secret : String
  pub url : String
  pub qr_png_base64 : String

-- What a handler of the account reads: the claims that the gate left on the request (none where it
-- did not run), the settings of the session, the clock, what the calls of crypto/rand, bcrypt and
-- secretbox give (none for an error; `salted` by the number of codes that are left), and the
-- answers of the commits of its write and of its delete.
pub record AccountEnv : Type 0 where
  pub claims : Option Claims
  pub now : Time
  pub session_secret : String
  pub expiry : ℕ
  pub hash : Option String
  pub enrollment : Option Enrollment
  pub seal : String → Option String
  pub codes : Option (List String)
  pub salted : ℕ → String → Option String
  pub save : Option Error
  pub drop : Option Error

-- The response before anything is written.
abbrev pub fresh : Response
fresh = record { status = 200; body = bytes "" }

-- Reading a field of a user that may be nil.
abbrev pub deref : {S : Type 0} → Option User → S → (User → Outcome S) → Outcome S
deref none s go = panicked s
deref (some p) s go = go p

module _ (std : Std) (E : Engine) where
  -- A refusal is written, and the error of the writing is returned.
  abbrev refuse : Reply Unit → Option User × Option Error × Response
  refuse (err, resp, s) = (none, err, resp)

  unfoldable pub local_self_user :
      Option Claims → UserStore std E → Option User × Option Error × Response
  local_self_user none s = refuse (unauthorized "" tt)
  local_self_user (some c) s =
      if c.email == ""
      then refuse (unauthorized "" tt)
      else (let (found, err) = get_user std E c.email s in
          elim err [
            | some e ↦ refuse (internal tt)
            | none ↦ elim found [
              | none ↦ refuse (unauthorized "" tt)
              | some p ↦ if p.enabled then (some p, none, fresh) else refuse (unauthorized "" tt)
            ]
          ])

  -- `p, err := h.localSelfUser(c)` and the test of the error, in front of the rest.
  unfoldable pub with_self :
      {S : Type 0} → Option Claims → UserStore std E → S → (Option User → Outcome S) → Outcome S
  with_self claims users s go =
      let (p, err, resp) = local_self_user claims users in
      elim err [ some e ↦ answered (some e, resp, s) | none ↦ go p ]

  -- The signed-in user, where the guard passes.
  abbrev pub IsSelf : Option Claims → User → UserStore std E → Type 0
  IsSelf claims p s =
      (c : Claims) × (claims ≡ some c)
      × (get_user std E c.email s ≡ (some p, none))
      × (p.enabled ≡ true)

  -- The guard never answers an error, and it finds a user only where that user is stored under the
  -- email of the session and is enabled.
  pub local_self_user_lem :
      (claims : Option Claims) (s : UserStore std E)
      → ((local_self_user claims s).1 ≡ none)
        × ((p : User) → (local_self_user claims s).0 ≡ some p → IsSelf claims p s)
  unfolding local_self_user
  local_self_user_lem none s = (refl, λ p e. cc)
  local_self_user_lem (some c) s = (ground arith, λ p e. (c, refl, ground arith, ground arith))

  -- So the rest of a handler always runs, without a user where the guard has refused.
  pub with_self_lem :
      {S : Type 0} (claims : Option Claims) (users : UserStore std E) (s : S)
      (go : Option User → Outcome S)
      → with_self claims users s go ≡ go (local_self_user claims users).0
  unfolding with_self
  with_self_lem claims users s go = ground (arith, local_self_user_lem claims users)
