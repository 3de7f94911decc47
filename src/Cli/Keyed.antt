-- ===== src/Cli/Keyed.antt =====
-- That the steps of the commands of internal/cli/user.go keep every user under its own email.
use secret_share.Users.Store.{UserStore}
use secret_share.Users.Lockout.{IsKeyed, upsert-IsKeyed}
use secret_share.User.{User}
use secret_share.Std.{Std}
use secret_share.Prelude.{
  inl, inr, arith, some, false, Bool, none, String, true, Option, Option-cases,
}
use secret_share.Failure.{failing, passed, Checked}
use secret_share.Cli.Users.{
  CommandEnv, go_on, guarded_command, need_user, Ended, guard_last_admin, save_user_command,
}
use secret_share.Bolt.{Engine, Error}
use mathlib.Core.Path.{subst}

module _ (std : Std) (E : Engine) where
  pub save-IsKeyed :
      (env : CommandEnv) (p : User) (s : UserStore std E)
      → IsKeyed std E s
      → IsKeyed std E (save_user_command std E env p s).1
  unfolding save_user_command
  save-IsKeyed env p s h =
      subst (IsKeyed std E) (ground arith) (upsert-IsKeyed std E env.save env.now p s h)

  pub found-IsKeyed :
      (email : String) (found : Option User × Option Error) (s : UserStore std E)
      (rest : User → Ended std E)
      → IsKeyed std E s
      → ((p : User) → IsKeyed std E (rest p).1)
      → IsKeyed std E (need_user std E email found s rest).1
  unfolding need_user
  found-IsKeyed email (found, some e) s rest h go = h
  found-IsKeyed email (none, none) s rest h go = h
  found-IsKeyed email (some p, none) s rest h go = go p

  pub guarded-IsKeyed :
      (leaves : Bool) (s : UserStore std E) (rest : Ended std E)
      → IsKeyed std E s
      → IsKeyed std E rest.1
      → IsKeyed std E (guarded_command std E leaves s rest).1
  unfolding guarded_command
  guarded-IsKeyed false s rest h go = go
  guarded-IsKeyed true s rest h go = elim (Option-cases (guard_last_admin std E s)) [
    | inr (e, bad) ↦ rw bad h
    | inl fine ↦ rw fine go
  ]

  pub go_on-IsKeyed :
      {A : Type 0} (c : Checked A) (s : UserStore std E) (rest : A → Ended std E)
      → IsKeyed std E s
      → ((a : A) → IsKeyed std E (rest a).1)
      → IsKeyed std E (go_on std E c s rest).1
  go_on-IsKeyed (failing e) s rest h go = h
  go_on-IsKeyed (passed a) s rest h go = go a
