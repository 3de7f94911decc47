-- ===== src/Cli/Bootstrap.antt =====
-- The first admin at the start of the server, seedBootstrapAdmin and ensureBootstrapAdmin of
-- internal/cli/serve.go.
use secret_share.Users.Store.{get_user, UserStore, upsert, count_by_role}
use secret_share.User.{role_admin, normalize_email, set_password, source_oidc, source_local, User}
use secret_share.Std.{Std}
use secret_share.Prelude.{Option, true, String, none, some, [], not, ◌==◌, if◌then◌else◌, ltb}
use secret_share.Failure.{wrapping_store, wrapping, Checked, errorf, Failure, failing, passed}
use secret_share.Config.Validate.{has_no_provider}
use secret_share.Config.{AuthConfig, BootstrapAdminConfig}
use secret_share.Cli.Users.{CommandEnv, bare_user, go_on, Ended}
use secret_share.Bolt.{Error, Engine}

module _ (std : Std) (E : Engine) where
  -- The password of the settings, or none for a user of a provider.
  unfoldable pub seed_credentials : (String → Option String) → String → User → Checked User
  seed_credentials hash password p =
      if password == ""
      then passed (record p { source = source_oidc })
      else elim (set_password (hash password) p) [
        | none ↦ failing (wrapping "hash bootstrap password: %w" [])
        | some q ↦ passed (record q { source = source_local })
      ]

  abbrev pub seeded_user : String → User
  seeded_user email = record (bare_user email) { role = role_admin; pinned = true }

  -- Over the lookup of the email.
  unfoldable pub seed_found :
      CommandEnv
      → BootstrapAdminConfig
      → String
      → Option User × Option Error
      → UserStore std E
      → Ended std E
  seed_found env b email (existing, some e) s = (some (wrapping_store "lookup user %q: %w" e), s)
  seed_found env b email (some p, none) s = (none, s)
  seed_found env b email (none, none) s =
      go_on std E (seed_credentials env.hash b.password (seeded_user email)) s (λ p.
        let (_, err, s') = upsert std E env.save env.now p s in
        elim err [
          | some e ↦ (some (wrapping_store "save bootstrap admin: %w" e), s')
          | none ↦ (none, s')
        ])

  unfoldable pub seed_bootstrap_admin : CommandEnv → AuthConfig → UserStore std E → Ended std E
  seed_bootstrap_admin env a s =
      let email = normalize_email std a.bootstrap_admin.email in
      if not a.enabled
      then (none, s)
      else if email == ""
      then (none, s)
      else seed_found env a.bootstrap_admin email (get_user std E email s) s

  unfoldable pub ensure_bootstrap_admin : AuthConfig → UserStore std E → Option Failure
  ensure_bootstrap_admin a s =
      if not a.enabled
      then none
      else (let (n, err) = count_by_role std E role_admin s in
          elim err [
            | some e ↦ some (wrapping_store "check admin users: %w" e)
            | none ↦
                if ltb 0 n
                then none
                else if not (has_no_provider a.oidc)
                then none
                else some (
                    errorf
                      "auth is enabled but no admin user exists: seed one via SHARE_AUTH_BOOTSTRAP_ADMIN_EMAIL/_PASSWORD, or run `secret-share user create` before starting the server"
                      [])
          ])

  -- The two steps in the order of the start of the server.
  unfoldable pub boot_users : CommandEnv → AuthConfig → UserStore std E → Ended std E
  boot_users env a s =
      let (err, s') = seed_bootstrap_admin env a s in
      elim err [ some e ↦ (some e, s') | none ↦ (ensure_bootstrap_admin a s', s') ]
