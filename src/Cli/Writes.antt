-- ===== src/Cli/Writes.antt =====
-- Which steps of the commands of internal/cli/user.go keep a user in the role of an admin.
use secret_share.Users.Store.{key, UserStore, get_user, stamp, upsert}
use secret_share.Users.Lockout.{IsKeyed}
use secret_share.Users.Laws.{get_user_lem, upsert_lem}
use secret_share.User.{role_admin, normalize_email_idem, normalize_email, User}
use secret_share.Tests.Fixtures.{plain}
use secret_share.Std.{Std}
use secret_share.Secret.{Time}
use secret_share.Prelude.{
  String, refl, ◌==◌, true, not, arith, eq_refl, some, Bool, inl, ◌&&◌, ◌≡◌, ◌⊎◌, eq_iff, Option,
  false, inr, ap, ◌∙◌, Bool-cases, Option-cases,
}
use secret_share.Cli.Users.{
  CommandEnv, guard_last_admin, need_user, guarded_command, Ended, save_user_command,
}
use secret_share.Cli.Admins.{HasAdminRole, guard_other, HasOtherRole}
use secret_share.Bolt.{raw_at, json, Engine, Error}
use mathlib.Core.Path.{subst}

module _ (std : Std) (E : Engine) where
  -- A write keeps an admin where it writes one, or where there is another.
  abbrev pub IsKeeping : User → UserStore std E → Type 0
  IsKeeping p s =
      ((p.role == role_admin) ≡ true) ⊎ HasOtherRole std E (normalize_email std p.email) s

  pub upsert-HasAdminRole :
      (commit : Option Error) (now : Time) (p : User) (s : UserStore std E)
      → HasAdminRole std E s
      → IsKeeping p s
      → HasAdminRole std E (upsert std E commit now p s).2
  upsert-HasAdminRole commit now p s h keeps =
      let n = normalize_email std p.email in
      elim (Option-cases (upsert std E commit now p s).1) [
        | inr (e, bad) ↦ (h.0, h.1, ground (arith, upsert_lem std E commit now p h.0 s), h.3)
        | inl fine ↦ elim keeps [
          | inl admin ↦ (
            n,
            (upsert std E commit now p s).0,
            ground (arith, upsert_lem std E commit now p n s, eq_refl n),
            unfold stamp in ground (arith, upsert_lem std E commit now p n s),
          )
          | inr (k, u, at, passes, apart) ↦
              (k, u, ground (arith, upsert_lem std E commit now p k s), passes)
        ]
      ]

  pub save-HasAdminRole :
      (env : CommandEnv) (p : User) (s : UserStore std E)
      → HasAdminRole std E s
      → IsKeeping p s
      → HasAdminRole std E (save_user_command std E env p s).1
  unfolding save_user_command
  save-HasAdminRole env p s h keeps =
      subst (HasAdminRole std E) (ground arith) (upsert-HasAdminRole env.save env.now p s h keeps)

  -- The guard lets a command go on only where the store keeps an admin.
  pub guarded-HasAdminRole :
      (key : String) (leaves : Bool) (s : UserStore std E) (rest : Ended std E)
      → HasAdminRole std E s
      → ((leaves ≡ false) ⊎ HasOtherRole std E key s → HasAdminRole std E rest.1)
      → HasAdminRole std E (guarded_command std E leaves s rest).1
  unfolding guarded_command
  guarded-HasAdminRole key false s rest h go = go (inl refl)
  guarded-HasAdminRole key true s rest h go = elim (Option-cases (guard_last_admin std E s)) [
    | inr (e, bad) ↦ rw bad h
    | inl fine ↦ rw fine (go (inr (guard_other std E key s fine)))
  ]

  -- A user that is found, in front of the rest of a command.
  pub found-HasAdminRole :
      (email : String) (s : UserStore std E) (rest : User → Ended std E)
      → IsKeyed std E s
      → HasAdminRole std E s
      → ((p : User)
          → p.email ≡ normalize_email std email
          → raw_at E s (normalize_email std email) ≡ some (json p)
          → HasAdminRole std E (rest p).1)
      → HasAdminRole std E
          (need_user std E
            (normalize_email std email)
            (get_user std E (normalize_email std email) s)
            s
            rest).1
  unfolding need_user
  found-HasAdminRole email s rest keyed h go =
      let n = normalize_email std email in
      elim (Option-cases (get_user std E n s).1) [
        | inr (e, bad) ↦ subst (HasAdminRole std E) (ground arith) h
        | inl fine ↦ elim (Option-cases (get_user std E n s).0) [
          | inl gone' ↦ subst (HasAdminRole std E) (ground arith) h
          | inr (p, here) ↦
              let at : raw_at E s n ≡ some (json p) =
                ground (arith, get_user_lem std E n s, normalize_email_idem std email) in
              subst (HasAdminRole std E) (ground arith) (go p (keyed.at n p at) at)
        ]
      ]

  -- A write of the user that was found, with its role changed only behind the guard.
  pub write_keeps :
      (email : String) (p q : User) (s : UserStore std E)
      → HasAdminRole std E s
      → p.email ≡ normalize_email std email
      → raw_at E s (normalize_email std email) ≡ some (json p)
      → q.email ≡ p.email
      → ((p.role == role_admin && not (q.role == role_admin)) ≡ false)
        ⊎ HasOtherRole std E (normalize_email std email) s
      → IsKeeping q s
  write_keeps email p q s h mail at same which =
      let n = normalize_email std email in
      let key : normalize_email std q.email ≡ n =
        ap (normalize_email std) (same ∙ mail) ∙ normalize_email_idem std email in
      elim (Bool-cases (q.role == role_admin)) [
        | inl admin ↦ inl admin
        | inr plain ↦ elim which [
          | inr (k, u, there, passes, apart) ↦
              inr (k, u, there, passes, ap (λ e. e == k) key ∙ apart)
          | inl stays ↦
              let (k, u, there, passes) = h in
              inr (k, u, there, passes, ground (arith, key, eq_iff (normalize_email std q.email) k))
        ]
      ]
