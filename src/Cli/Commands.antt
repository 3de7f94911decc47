-- ===== src/Cli/Commands.antt =====
-- Sequences of the `user` commands that remove or change a user, internal/cli/user.go. Creation is
-- not among them: it sets the role of a user that is there without asking the guard.
use secret_share.Users.Store.{delete_user, get_user, UserStore}
use secret_share.Users.Lockout.{IsKeyed, delete_user-IsKeyed}
use secret_share.Users.Laws.{delete_user_lem}
use secret_share.User.{normalize_email, parse_role, role_admin, normalize_email_idem, set_password}
use secret_share.Tests.Fixtures.{plain}
use secret_share.Std.{Std}
use secret_share.Prelude.{
  ◌&&◌, refl, not, eq_iff, [], ◌∷◌, inr, ◌==◌, String, inl, arith, List, Bool-cases,
}
use secret_share.Failure.{Checked-cases}
use secret_share.Cli.Writes.{
  guarded-HasAdminRole, found-HasAdminRole, write_keeps, save-HasAdminRole,
}
use secret_share.Cli.Users.{
  guarded_command, save_user_command, run_user_reset_password, with_role, Ended, run_user_delete,
  with_local_password, run_user_set_role, CommandEnv,
}
use secret_share.Cli.Prompt.{password_of}
use secret_share.Cli.Keyed.{found-IsKeyed, go_on-IsKeyed, guarded-IsKeyed, save-IsKeyed}
use secret_share.Cli.Admins.{HasAdminRole}
use secret_share.Bolt.{Engine}
use mathlib.Core.Path.{subst}

pub data Command : Type 0 where
  removes : String → Command
  regrades : String → String → Command
  resets : String → Command

module _ (std : Std) (E : Engine) where
  unfoldable pub run_command : CommandEnv → Command → UserStore std E → Ended std E
  run_command env (removes email) s = run_user_delete std E env email s
  run_command env (regrades email role) s = run_user_set_role std E env email role s
  run_command env (resets email) s = run_user_reset_password std E env email s

  -- The commands run one after the other, each with its own inputs.
  abbrev pub after_commands : List (CommandEnv × Command) → UserStore std E → UserStore std E
  after_commands [] s = s
  after_commands ((env, c) ∷ rest) s = after_commands rest (run_command env c s).1

  delete-HasAdminRole :
      (env : CommandEnv) (email : String) (s : UserStore std E)
      → IsKeyed std E s
      → HasAdminRole std E s
      → HasAdminRole std E (run_user_delete std E env email s).1
  unfolding run_user_delete
  delete-HasAdminRole env email s keyed h =
      let n = normalize_email std email in
      found-HasAdminRole std E email s _ keyed h (λ p mail at.
        guarded-HasAdminRole std E n (p.role == role_admin) s _ h (λ which.
          let left : HasAdminRole std E (delete_user std E env.save n s).2 = elim which [
            | inl plain ↦
                let (k, u, there, passes) = h in
                (
                  k,
                  u,
                  ground (
                    arith,
                    delete_user_lem std E env.save n k s,
                    normalize_email_idem std email,
                    eq_iff n k,
                  ),
                  passes,
                )
            | inr (k, u, there, passes, apart) ↦ (
              k,
              u,
              ground (arith, delete_user_lem std E env.save n k s, normalize_email_idem std email),
              passes,
            )
          ] in
          subst (HasAdminRole std E) (ground arith) left))

  role-HasAdminRole :
      (env : CommandEnv) (email role : String) (s : UserStore std E)
      → IsKeyed std E s
      → HasAdminRole std E s
      → HasAdminRole std E (run_user_set_role std E env email role s).1
  unfolding run_user_set_role with_role
  role-HasAdminRole env email role s keyed h = elim (Bool-cases (parse_role std role).1) [
    | inr unknown ↦ subst (HasAdminRole std E) (ground arith) h
    | inl known ↦
        let r = (parse_role std role).0 in
        subst (HasAdminRole std E) (ground arith) (
          found-HasAdminRole std E email s
            (λ p.
              guarded_command std E (p.role == role_admin && not (r == role_admin)) s
                (save_user_command std E env (with_role r p) s))
            keyed h
            (λ p mail at. guarded-HasAdminRole std E (normalize_email std email) _ s _ h (λ which.
              save-HasAdminRole std E env (with_role r p) s h
                (write_keeps std E email p (with_role r p) s h mail at refl which))))
  ]

  reset-HasAdminRole :
      (env : CommandEnv) (email : String) (s : UserStore std E)
      → IsKeyed std E s
      → HasAdminRole std E s
      → HasAdminRole std E (run_user_reset_password std E env email s).1
  unfolding run_user_reset_password with_local_password set_password
  reset-HasAdminRole env email s keyed h = found-HasAdminRole std E email s _ keyed h (λ p mail at.
      elim (Checked-cases (password_of std env.password env.terminal)) [
        | inr (e, bad) ↦ subst (HasAdminRole std E) (ground arith) h
        | inl (pw, given) ↦ elim (Checked-cases (with_local_password env.hash pw p)) [
          | inr (e, bad) ↦ subst (HasAdminRole std E) (ground arith) h
          | inl (q, good) ↦ subst (HasAdminRole std E) (ground arith) (
              save-HasAdminRole std E env q s h
                (write_keeps std E email p q s h mail at (ground arith) (inl (ground arith))))
        ]
      ])

  command-IsKeyed :
      (env : CommandEnv) (c : Command) (s : UserStore std E)
      → IsKeyed std E s
      → IsKeyed std E (run_command env c s).1
  unfolding run_command run_user_delete run_user_set_role run_user_reset_password
  command-IsKeyed env (removes email) s h =
      let n = normalize_email std email in
      found-IsKeyed std E n _ s _ h (λ p.
        guarded-IsKeyed std E (p.role == role_admin) s _ h
          (subst (IsKeyed std E) (ground arith) (delete_user-IsKeyed std E env.save n s h)))
  command-IsKeyed env (regrades email role) s h = elim (Bool-cases (parse_role std role).1) [
    | inr unknown ↦ subst (IsKeyed std E) (ground arith) h
    | inl known ↦
        let n = normalize_email std email in
        let r = (parse_role std role).0 in
        subst (IsKeyed std E) (ground arith) (
          found-IsKeyed std E n (get_user std E n s) s
            (λ p.
              guarded_command std E (p.role == role_admin && not (r == role_admin)) s
                (save_user_command std E env (with_role r p) s))
            h (λ p. guarded-IsKeyed std E _ s _ h (save-IsKeyed std E env (with_role r p) s h)))
  ]
  command-IsKeyed env (resets email) s h =
      found-IsKeyed std E (normalize_email std email) _ s _ h (λ p.
        go_on-IsKeyed std E (password_of std env.password env.terminal) s _ h (λ pw.
          go_on-IsKeyed std E (with_local_password env.hash pw p) s _ h
            (λ q. save-IsKeyed std E env q s h)))

  -- Over a store whose users stand under their own emails, with some user in the role of an admin,
  -- no sequence of the commands that delete a user, set a role or reset a password takes the last
  -- admin away, whichever of their commits fail. (The guard counts disabled admins too, so the
  -- admin that is left may be disabled.)
  pub after_commands-HasAdminRole :
      (commands : List (CommandEnv × Command)) (s : UserStore std E)
      → IsKeyed std E s
      → HasAdminRole std E s
      → HasAdminRole std E (after_commands commands s)
  after_commands-HasAdminRole [] s keyed h = h
  after_commands-HasAdminRole ((env, c) ∷ rest) s keyed h =
      after_commands-HasAdminRole rest (run_command env c s).1 (command-IsKeyed env c s keyed)
        (elim c as (λ d. HasAdminRole std E (run_command env d s).1) [
          | removes email ↦ unfold run_command in delete-HasAdminRole env email s keyed h
          | regrades email role ↦ unfold run_command in role-HasAdminRole env email role s keyed h
          | resets email ↦ unfold run_command in reset-HasAdminRole env email s keyed h
        ])
