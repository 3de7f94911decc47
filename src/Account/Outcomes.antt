-- ===== src/Account/Outcomes.antt =====
-- What the successful requests to internal/domain/auth/account.go and internal/domain/auth/2fa.go
-- leave in the store, and what a refused session gets.
use secret_share.Users.Store.{UserStore, stamp}
use secret_share.Users.Lockout.{IsKeyed}
use secret_share.Users.Laws.{upsert_lem, get_user_lem}
use secret_share.User.{set_password, Bcrypt, normalize_email_idem, normalize_email, User}
use secret_share.Std.{Std}
use secret_share.Session.{Claims, Codec}
use secret_share.Prelude.{
  none, inr, true, ◌∷◌, inl, [], Option-cases, ◌==◌, String, List, ◌∙◌, sym, some, ◌≡◌, Option,
  arith, ap, if◌then◌else◌,
}
use secret_share.Login.Handler.{Totp}
use secret_share.Http.{flag, Value, obj}
use secret_share.Bolt.{json, Engine, raw_at}
use secret_share.Account.TwoFactor.{save_self, State}
use secret_share.Account.Self.{
  with_self, local_self_user, safe_recover, AccountEnv, local_self_user_lem,
}
use secret_share.Account.Credentials.{change_password, PasswordBody}

-- The user that a guard found stands under its own normal email.
abbrev pub IsFound : (std : Std) (E : Engine) → Option Claims → User → UserStore std E → Type 0
IsFound std E claims p s = (local_self_user std E claims s).0 ≡ some p

module _ (std : Std) (E : Engine) (codec : Codec) (bcrypt : Bcrypt) (totp : Totp) where
  abbrev A : Type 0
  A = State std E codec bcrypt totp

  -- The guard answers no error.
  pub quiet : (claims : Option Claims) (s : A) → (local_self_user std E claims s.users).1 ≡ none
  quiet claims s = (local_self_user_lem std E claims s.users).0

  pub found_at :
      (claims : Option Claims) (p : User) (s : UserStore std E)
      → IsKeyed std E s
      → IsFound std E claims p s
      → (raw_at E s p.email ≡ some (json p)) × (normalize_email std p.email ≡ p.email)
  found_at claims p s keyed e =
      let (c, here, found, on) = (local_self_user_lem std E claims s).1 p e in
      let k = normalize_email std c.email in
      let at : raw_at E s k ≡ some (json p) = ground (arith, get_user_lem std E c.email s) in
      let same : p.email ≡ k = keyed.at k p at in
      (
        ap (raw_at E s) same ∙ at,
        ap (normalize_email std) same ∙ normalize_email_idem std c.email ∙ sym same,
      )

  -- A successful write of a user under the email that it has.
  pub saved :
      (env : AccountEnv) (q : User) (body : List (String × Value)) (s : A) (j : String)
      → (safe_recover (save_self std E codec bcrypt totp env q body s)).1.status ≡ 200
      → normalize_email std q.email ≡ q.email
      → (raw_at E (safe_recover (save_self std E codec bcrypt totp env q body s)).2.users j ≡ (
          if q.email == j
          then some (json (stamp env.now (raw_at E s.users q.email) q))
          else raw_at E s.users j))
        × ((safe_recover (save_self std E codec bcrypt totp env q body s)).1.body ≡ obj body)
  unfolding save_self safe_recover
  saved env q body s j good normal =
      ground (arith, upsert_lem std E env.save env.now q j s.users, normal)

  -- What is left of a change of the password that answers 200.
  password_run :
      (env : AccountEnv) (b : PasswordBody) (p : User) (s : A)
      → IsFound std E env.claims p s.users
      → (safe_recover (change_password std E codec bcrypt totp env (some b) s)).1.status ≡ 200
      → (h : String) × (env.hash ≡ some h)
        × (change_password std E codec bcrypt totp env (some b) s
            ≡ save_self std E codec bcrypt totp env
                (record p { password_hash = h })
                (("ok", flag true) ∷ [])
                s)
  unfolding change_password safe_recover set_password with_self
  password_run env b p s found good =
      let silent = quiet env.claims s in
      elim (Option-cases env.hash) [
        | inl e ↦ absurd (ground arith)
        | inr (h, e) ↦ (h, e, ground arith)
      ]

  -- A change of the password that answers 200 has stored the new hash on the user of the session
  -- and has changed no other field of it but the time of the update, and no other user. This is
  -- over a store whose users stand under their own emails.
  pub change_password_lem :
      (env : AccountEnv) (b : PasswordBody) (p : User) (s : A) (j : String)
      → IsKeyed std E s.users
      → IsFound std E env.claims p s.users
      → (safe_recover (change_password std E codec bcrypt totp env (some b) s)).1.status ≡ 200
      → (h : String) × (env.hash ≡ some h)
        × (raw_at E
              (safe_recover (change_password std E codec bcrypt totp env (some b) s)).2.users
              j
            ≡ (if p.email == j
                then some (json (stamp env.now (some (json p)) (record p { password_hash = h })))
                else raw_at E s.users j))
  change_password_lem env b p s j keyed found good =
      let (h, e, run) = password_run env b p s found good in
      let (at, normal) = found_at env.claims p s.users keyed found in
      let q : User = record p { password_hash = h } in
      (h, e, ground (arith, run, at, saved env q (("ok", flag true) ∷ []) s j, normal, good))
