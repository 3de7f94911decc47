-- ===== src/Cli/Admins.antt =====
-- That the commands of internal/cli/user.go and the start of internal/cli/serve.go keep or find an
-- admin. What they count is the role alone: a disabled admin counts.
use secret_share.Users.Store.{count_role, UserBytes, key, count_by_role, UserStore}
use secret_share.User.{User, role_admin}
use secret_share.Std.{Std}
use secret_share.Prelude.{
  inr, some, ◌∷◌, ◌<◌, arith, eq_iff, inl, ◌≡◌, ◌∙◌, String, false, none, ◌==◌, List, Bool, true,
  eq_refl, [], lookup, HasDistinctKeys, Option-cases, Bool-cases,
}
use secret_share.Config.Validate.{has_no_provider}
use secret_share.Config.{AuthConfig}
use secret_share.Cli.Users.{guard_last_admin, CommandEnv}
use secret_share.Cli.Bootstrap.{ensure_bootstrap_admin, boot_users, seed_bootstrap_admin}
use secret_share.Bolt.{opened, json, junk, Engine, raw_at, closed}
use mathlib.Core.Path.{subst}

module _ (std : Std) (E : Engine) where
  abbrev is_admin : User → Bool
  is_admin p = p.role == role_admin

  -- Some user with the role of an admin is stored, enabled or not.
  abbrev pub HasAdminRole : UserStore std E → Type 0
  HasAdminRole s =
      (k : String) × (u : User) × (raw_at E s k ≡ some (json u)) × ((u.role == role_admin) ≡ true)

  -- Another one than under this key.
  abbrev pub HasOtherRole : String → UserStore std E → Type 0
  HasOtherRole key s =
      (k : String) × (u : User) × (raw_at E s k ≡ some (json u))
      × ((u.role == role_admin) ≡ true)
      × ((key == k) ≡ false)

  -- A counted admin stands under some key.
  some_of_count :
      (l : List (String × UserBytes))
      → HasDistinctKeys l
      → (count_role role_admin l).1 ≡ none
      → 0 < (count_role role_admin l).0
      → (k : String) × (u : User) × (lookup k l ≡ some (json u)) × (is_admin u ≡ true)
  unfolding count_role
  some_of_count [] d e n = absurd (omega arith)
  some_of_count ((j, junk) ∷ rest) d e n = cc
  some_of_count ((j, json p) ∷ rest) d e n = elim (Bool-cases (is_admin p)) [
    | inl this ↦ (j, p, ground (arith, eq_refl j), this)
    | inr other ↦
        let (k, u, at, passes) = some_of_count rest d.1 e (ground arith) in
        (k, u, ground (arith, eq_iff j k), passes)
  ]

  -- Of two counted admins one stands under another key than the given one.
  other_of_count :
      (key : String) (l : List (String × UserBytes))
      → HasDistinctKeys l
      → (count_role role_admin l).1 ≡ none
      → 1 < (count_role role_admin l).0
      → (k : String) × (u : User) × (lookup k l ≡ some (json u))
        × (is_admin u ≡ true)
        × ((key == k) ≡ false)
  unfolding count_role
  other_of_count key [] d e n = absurd (omega arith)
  other_of_count key ((j, junk) ∷ rest) d e n = cc
  other_of_count key ((j, json p) ∷ rest) d e n = elim (Bool-cases (is_admin p)) [
    | inr other ↦
        let (k, u, at, passes, apart) = other_of_count key rest d.1 e (ground arith) in
        (k, u, ground (arith, eq_iff j k), passes, apart)
    | inl this ↦ elim (Bool-cases (key == j)) [
      | inr apart ↦ (j, p, ground (arith, eq_refl j), this, apart)
      | inl same ↦
          let (k, u, at, passes) = some_of_count rest d.1 e (ground arith) in
          let apart : (j == k) ≡ false = ground (arith, eq_iff j k) in
          (k, u, ground arith, passes, ground (arith, eq_iff key j))
    ]
  ]

  count_some :
      (s : UserStore std E)
      → (count_by_role std E role_admin s).1 ≡ none
      → 0 < (count_by_role std E role_admin s).0
      → HasAdminRole s
  unfolding count_by_role raw_at
  count_some closed e n = absurd (omega arith)
  count_some (opened none) e n = absurd (omega arith)
  count_some (opened (some b)) e n =
      let (k, u, at, passes) = some_of_count (E.entries b) (E.entries-HasDistinctKeys b) e n in
      (k, u, E.get-entries b k ∙ at, passes)

  pub guard_other :
      (key : String) (s : UserStore std E) → guard_last_admin std E s ≡ none → HasOtherRole key s
  unfolding guard_last_admin count_by_role raw_at
  guard_other key closed h = absurd (ground arith)
  guard_other key (opened none) h = absurd (ground arith)
  guard_other key (opened (some b)) h =
      let (k, u, at, passes, apart) =
        other_of_count key (E.entries b) (E.entries-HasDistinctKeys b) (ground arith)
          (ground arith) in
      (k, u, E.get-entries b k ∙ at, passes, apart)

  -- A start of the server that passes with the login on, and with no provider, has an admin in its
  -- store: one that was there, or the one that the settings seed.
  pub boot_users-HasAdminRole :
      (env : CommandEnv) (a : AuthConfig) (s : UserStore std E)
      → (boot_users std E env a s).0 ≡ none
      → a.enabled ≡ true
      → has_no_provider a.oidc ≡ true
      → HasAdminRole (boot_users std E env a s).1
  unfolding boot_users ensure_bootstrap_admin
  boot_users-HasAdminRole env a s h on alone =
      elim (Option-cases (seed_bootstrap_admin std E env a s).0) [
        | inr (e, bad) ↦ absurd (ground arith)
        | inl fine ↦
            let s' = (seed_bootstrap_admin std E env a s).1 in
            subst HasAdminRole (ground arith) (count_some s' (ground arith) (ground arith))
      ]
