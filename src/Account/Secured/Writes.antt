-- ===== src/Account/Secured/Writes.antt =====
-- The state of the second factor on the user records, over the writes of
-- internal/domain/auth/account.go and internal/domain/auth/2fa.go.
use secret_share.Account.Credentials.{rekey}
use secret_share.Users.Store.{UserStore, delete_user, stamp, upsert}
use secret_share.Users.Laws.{delete_user_lem, get_user_lem, upsert_lem}
use secret_share.User.{Bcrypt, User, normalize_email}
use secret_share.Std.{Std}
use secret_share.Session.{Claims, Codec}
use secret_share.Secret.{Time}
use secret_share.Prelude.{
  inr, inl, String, List, true, sym, arith, ◌≡◌, some, false, none, Option, ◌==◌, Option-cases,
}
use secret_share.Login.Handler.{Totp}
use secret_share.Http.{Value}
use secret_share.Bolt.{done, Error, Engine, raw_at, json}
use secret_share.Account.TwoFactor.{
  issue_codes-cases, enroll_self-cases, State, issue_codes, enroll_self, save_self,
}
use secret_share.Account.Self.{
  IsSelf, with_self_lem, local_self_user_lem, with_self, Outcome, safe_recover, AccountEnv,
  local_self_user,
}
use mathlib.Core.Path.{subst}

module _ (std : Std) (E : Engine) (codec : Codec) (bcrypt : Bcrypt) (totp : Totp) where
  abbrev A : Type 0
  A = State std E codec bcrypt totp

  -- A second factor that is on has a secret.
  abbrev pub IsSecured : User → Type 0
  IsSecured p = p.totp_enabled ≡ true → (p.totp_secret_enc == "") ≡ false

  -- That of every stored user.
  pub record AreSecured (s : UserStore std E) : Type 0 where
    pub at : (k : String) (u : User) → raw_at E s k ≡ some (json u) → IsSecured u

  upsert-AreSecured :
      (commit : Option Error) (now : Time) (p : User) (s : UserStore std E)
      → AreSecured s
      → IsSecured p
      → AreSecured (upsert std E commit now p s).2
  unfolding stamp
  upsert-AreSecured commit now p s h good = record {
    at = λ k u e. ground (arith, upsert_lem std E commit now p k s, h.at k u, good);
  }

  delete_user-AreSecured :
      (commit : Option Error) (email : String) (s : UserStore std E)
      → AreSecured s
      → AreSecured (delete_user std E commit email s).2
  delete_user-AreSecured commit email s h = record {
    at = λ k u e. ground (arith, delete_user_lem std E commit email k s, h.at k u);
  }

  -- The user of the session is secured, as the store is.
  self-IsSecured :
      (claims : Option Claims) (p : User) (s : UserStore std E)
      → AreSecured s
      → IsSelf std E claims p s
      → IsSecured p
  self-IsSecured claims p s h (c, here, found, on) =
      h.at (normalize_email std c.email) p (ground (arith, get_user_lem std E c.email s))

  abbrev pub users_after : Outcome A → UserStore std E
  users_after o = (safe_recover o).2.users

  pub behind_guard :
      (env : AccountEnv) (s : A) (go : Option User → Outcome A)
      → AreSecured s.users
      → AreSecured (users_after (go none))
      → ((p : User) → IsSecured p → AreSecured (users_after (go (some p))))
      → AreSecured (users_after (with_self std E env.claims s.users s go))
  behind_guard env s go h missing found =
      subst (λ o. AreSecured (users_after o)) (sym (with_self_lem std E env.claims s.users s go))
        (elim (Option-cases (local_self_user std E env.claims s.users).0) [
          | inl e ↦ rw e missing
          | inr (p, e) ↦ rw e (
              found p (
                self-IsSecured env.claims p s.users h
                  ((local_self_user_lem std E env.claims s.users).1 p e)))
        ])

  pub save_self-AreSecured :
      (env : AccountEnv) (p : User) (body : List (String × Value)) (s : A)
      → AreSecured s.users
      → IsSecured p
      → AreSecured (users_after (save_self std E codec bcrypt totp env p body s))
  unfolding save_self safe_recover
  save_self-AreSecured env p body s h good =
      let same : users_after (save_self std E codec bcrypt totp env p body s)
          ≡ (upsert std E env.save env.now p s.users).2 =
        ground arith in
      subst AreSecured (sym same) (upsert-AreSecured env.save env.now p s.users h good)

  pub enroll_self-AreSecured :
      (env : AccountEnv) (p : User) (s : A)
      → AreSecured s.users
      → p.totp_enabled ≡ false
      → AreSecured (users_after (enroll_self std E codec bcrypt totp env p s))
  unfolding safe_recover
  enroll_self-AreSecured env p s h off = elim (enroll_self-cases std E codec bcrypt totp env p s) [
    | inl e ↦ subst (λ o. AreSecured (users_after o)) (sym e) h
    | inr (enr, enc, there, sealed, e) ↦
        subst (λ o. AreSecured (users_after o)) (sym e)
          (save_self-AreSecured env _ _ s h (λ on. absurd (ground arith)))
  ]

  pub issue_codes-AreSecured :
      (env : AccountEnv) (finish : User → User) (p : User) (s : A)
      → AreSecured s.users
      → ((hs : List String) → IsSecured (finish (record p { recovery_code_hashes = hs })))
      → AreSecured (users_after (issue_codes std E codec bcrypt totp env finish p s))
  unfolding safe_recover
  issue_codes-AreSecured env finish p s h good =
      elim (issue_codes-cases std E codec bcrypt totp env finish p s) [
        | inl e ↦ subst (λ o. AreSecured (users_after o)) (sym e) h
        | inr (codes, hs, there, hashed, e) ↦
            subst (λ o. AreSecured (users_after o)) (sym e)
              (save_self-AreSecured env _ _ s h (good hs))
      ]

  pub rekey-AreSecured :
      (env : AccountEnv) (p : User) (new_email : String) (s : A)
      → AreSecured s.users
      → IsSecured p
      → AreSecured (users_after (rekey std E codec bcrypt totp env p new_email s))
  unfolding rekey safe_recover
  rekey-AreSecured env p new_email s h good =
      let q : User = record p { email = new_email } in
      let saved = upsert-AreSecured env.save env.now q s.users h good in
      let gone =
        delete_user-AreSecured env.drop p.email (upsert std E env.save env.now q s.users).2 saved in
      elim (Option-cases (upsert std E env.save env.now q s.users).1) [
        | inr (e, failed) ↦ subst AreSecured (ground arith) saved
        | inl done ↦ subst AreSecured (ground arith) gone
      ]
