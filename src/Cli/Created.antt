-- ===== src/Cli/Created.antt =====
-- What a successful `user create` and a seed of the first admin leave, internal/cli/user.go and
-- internal/cli/serve.go.
use secret_share.Config.{AuthConfig}
use secret_share.Cli.Bootstrap.{seeded_user, seed_credentials, seed_bootstrap_admin, seed_found}
use secret_share.Secret.{Time}
use secret_share.Users.Lockout.{IsKeyed}
use secret_share.Users.Store.{upsert, read_user, UserBytes, stamp, UserStore, get_user}
use secret_share.Users.Laws.{get_user_lem, get_user-upsert}
use secret_share.User.{
  normalize_email_idem, source_local, parse_role, source_oidc, check_password, normalize_email,
  set_password, Bcrypt, User, role_admin,
}
use secret_share.Std.{Std}
use secret_share.Prelude.{
  not, ◌||◌, ◌∙◌, ap, sym, refl, inr, inl, Bool-cases, Option-cases, if◌then◌else◌, some, String,
  none, eq_refl, ◌≡◌, false, Option, ◌==◌, Bool, true, arith,
}
use secret_share.Failure.{Checked-cases, passed-inj, passed, and_then}
use secret_share.Cli.Users.{
  run_user_create, create_found, email_of, base_user, with_role, with_local_password, CommandEnv,
  save_user_command, CreateArgs, credentials,
}
use secret_share.Bolt.{Engine, raw_at}
use mathlib.Core.Path.{subst}

-- That bcrypt accepts a password under the hash it gave for it, which is not blank.
pub record IsHashing (bcrypt : Bcrypt) (hash : String → Option String) : Type 0 where
  pub matches_own : (pw h : String) → hash pw ≡ some h → bcrypt.matches h pw ≡ true
  pub not_blank : (pw h : String) → hash pw ≡ some h → (h == "") ≡ false

module _ (std : Std) (E : Engine) where
  -- What is left of a write of a user that answers no error.
  saved_user :
      (env : CommandEnv) (q : User) (s : UserStore std E)
      → normalize_email std q.email ≡ q.email
      → (save_user_command std E env q s).0 ≡ none
      → get_user std E q.email (save_user_command std E env q s).1
        ≡ (some (stamp env.now (raw_at E s q.email) q), none)
  unfolding save_user_command
  saved_user env q s normal fine =
      ground (arith, get_user-upsert std E env.save env.now q q.email s, normal, eq_refl q.email)

  -- The facts of a login that do not change when the user is stamped.
  abbrev pub CanSignIn : Bcrypt → String → Bool → String → User → Type 0
  CanSignIn bcrypt role oidc pw u =
      (u.enabled ≡ true)
      × (u.role ≡ role)
      × (u.pinned ≡ (role == role_admin))
      × (oidc ≡ false → check_password bcrypt u pw ≡ true)

  base_lem :
      (email role : String) (old : Option User)
      → ((base_user email role old).enabled ≡ true)
        × ((base_user email role old).role ≡ role)
        × ((base_user email role old).pinned ≡ (role == role_admin))
  unfolding with_role
  base_lem email role none = (refl, refl, refl)
  base_lem email role (some p) = (refl, refl, refl)

  -- What the credentials of a creation are.
  credentials_lem :
      (bcrypt : Bcrypt) (env : CommandEnv) (args : CreateArgs) (email role : String)
      (old : Option User) (q : User)
      → IsHashing bcrypt env.hash
      → (env.password == "") ≡ false
      → credentials std E env args (base_user email role old) ≡ passed q
      → (q.email ≡ (base_user email role old).email)
        × CanSignIn bcrypt role args.oidc env.password q
  unfolding credentials with_role with_local_password set_password and_then check_password
  credentials_lem bcrypt env args email role old q sound given h =
      let p = base_user email role old in
      let (on, graded, pin) = base_lem email role old in
      elim (Bool-cases args.oidc) [
        | inl sso ↦
            let same : (if p.source == "" then record p { source = source_oidc } else p) ≡ q =
              ground arith in
            subst (λ u. (u.email ≡ p.email) × CanSignIn bcrypt role args.oidc env.password u) same
              (ground arith, (ground arith, ground arith, ground arith, λ local. cc))
        | inr local ↦ elim (Option-cases (env.hash env.password)) [
          | inl e ↦ absurd (ground arith)
          | inr (new, e) ↦
              let own = sound.matches_own env.password new e in
              let filled = sound.not_blank env.password new e in
              let hashed : User = record p { password_hash = new; source = source_local } in
              let same : hashed ≡ q = passed-inj hashed q (ground arith) in
              subst (λ u. (u.email ≡ p.email) × CanSignIn bcrypt role args.oidc env.password u) same
                (refl, (on, graded, pin, λ _. ground arith))
        ]
      ]

  -- The user to be written has the email of the command.
  base_email :
      (email role : String) (old : Option User) (s : UserStore std E)
      → IsKeyed std E s
      → get_user std E email s ≡ (old, none)
      → normalize_email std email ≡ email
      → (base_user email role old).email ≡ email
  unfolding with_role
  base_email email role none s keyed found normal = refl
  base_email email role (some p) s keyed found normal =
      keyed.at email p (ground (arith, get_user_lem std E email s))

  -- A stamp leaves the facts of a login.
  stamped :
      (bcrypt : Bcrypt) (role : String) (oidc : Bool) (pw : String) (now : Time)
      (o : Option UserBytes) (q : User)
      → CanSignIn bcrypt role oidc pw q
      → CanSignIn bcrypt role oidc pw (stamp now o q)
  unfolding stamp check_password
  stamped bcrypt role oidc pw now o q h = h

  -- A creation that ends without an error, with a password in its flag, has stored under the email
  -- an enabled user in the wanted role, pinned exactly if that is the admin; unless the user is one
  -- of a provider alone, the login accepts the password. A user that was there is changed in this
  -- way as well. This is over a store whose users stand under their own emails, and for a bcrypt
  -- that accepts a password under the hash it gave for it.
  pub run_user_create_lem :
      (bcrypt : Bcrypt) (env : CommandEnv) (args : CreateArgs) (s : UserStore std E)
      → IsKeyed std E s
      → IsHashing bcrypt env.hash
      → (env.password == "") ≡ false
      → (normalize_email std args.email == "") ≡ false
      → (run_user_create std E env args s).0 ≡ none
      → (u : User) × (get_user std E args.email (run_user_create std E env args s).1
          ≡ (some u, none))
        × CanSignIn bcrypt (parse_role std args.role).0 args.oidc env.password u
  unfolding run_user_create email_of create_found
  run_user_create_lem bcrypt env args s keyed sound given named fine =
      let n = normalize_email std args.email in
      let role = (parse_role std args.role).0 in
      let normal = normalize_email_idem std args.email in
      let old = (get_user std E n s).0 in
      elim (Option-cases (get_user std E n s).1) [
        | inr (e, bad) ↦ absurd (ground arith)
        | inl clear ↦ elim (Checked-cases (credentials std E env args (base_user n role old))) [
          | inr (e, bad) ↦ absurd (ground arith)
          | inl (q, made) ↦
              let (mail, can) = credentials_lem bcrypt env args n role old q sound given made in
              let this : q.email ≡ n = mail ∙ base_email n role old s keyed (ground arith) normal in
              let run : run_user_create std E env args s ≡ save_user_command std E env q s =
                ground arith in
              let found =
                saved_user env q s (ap (normalize_email std) this ∙ normal ∙ sym this)
                  (ground arith) in
              let u = stamp env.now (raw_at E s q.email) q in
              let left = (save_user_command std E env q s).1 in
              (
                u,
                ap (λ r. get_user std E args.email r.1) run
                    ∙ get_user_lem std E args.email left
                    ∙ ap (λ k. read_user (raw_at E left k))
                        (sym (ap (normalize_email std) this ∙ normal))
                    ∙ sym (get_user_lem std E q.email left)
                    ∙ found,
                stamped bcrypt role args.oidc env.password env.now _ q can,
              )
        ]
      ]

  seed_credentials_lem :
      (hash : String → Option String) (pw email : String) (q : User)
      → seed_credentials std E hash pw (seeded_user std E email) ≡ passed q
      → q.email ≡ email
  unfolding seed_credentials set_password
  seed_credentials_lem hash pw email q h = elim (Option-cases (hash pw)) [
    | inl e ↦ ground arith
    | inr (new, e) ↦ ground arith
  ]

  -- A seed that passes leaves the same store when it runs again with the same settings, whatever
  -- its calls then give: an admin that was seeded, or that was there, is left as it is.
  pub seed_bootstrap_admin_again :
      (env again : CommandEnv) (a : AuthConfig) (s : UserStore std E)
      → (seed_bootstrap_admin std E env a s).0 ≡ none
      → let s' = (seed_bootstrap_admin std E env a s).1 in
        seed_bootstrap_admin std E again a s' ≡ (none, s')
  unfolding seed_bootstrap_admin seed_found
  seed_bootstrap_admin_again env again a s fine =
      let n = normalize_email std a.bootstrap_admin.email in
      let normal = normalize_email_idem std a.bootstrap_admin.email in
      elim (Bool-cases (not a.enabled || n == "")) [
        | inl idle ↦ ground arith
        | inr busy ↦ elim (Option-cases (get_user std E n s).1) [
          | inr (e, bad) ↦ absurd (ground arith)
          | inl clear ↦ elim (Option-cases (get_user std E n s).0) [
            | inr (p, there) ↦ ground arith
            | inl free ↦
                elim (Checked-cases (
                  seed_credentials std E env.hash a.bootstrap_admin.password
                    (seeded_user std E n))) [
                      | inr (e, bad) ↦ absurd (ground arith)
                      | inl (q, made) ↦
                          let mail =
                            seed_credentials_lem env.hash a.bootstrap_admin.password n q made in
                          let wrote : (upsert std E env.save env.now q s).1 ≡ none = ground arith in
                          let found = get_user-upsert std E env.save env.now q n s wrote in
                          let key : normalize_email std q.email ≡ n =
                            ap (normalize_email std) mail ∙ normal in
                          ground (arith, found, key, normal, eq_refl n)
                    ]
          ]
        ]
      ]
