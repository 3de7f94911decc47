-- ===== src/Oidc/Grants.antt =====
-- What a sign-in through a provider can give (internal/core/oidc/allow.go and provisionOIDC of
-- internal/domain/auth/oidc.go).
use mathlib.Core.List.{Memᴰ}
use mathlib.Core.List.Memᴰ
use secret_share.Secrets.Once.{stored}
use secret_share.Account.Outcomes.{saved}
use secret_share.Users.Laws.{upsert_lem}
use secret_share.Users.Store.{upsert, stamp, get_user, UserStore}
use secret_share.Oidc.Provision.{signed_in, write_oidc, provision_found, SsoEnv, provision_oidc}
use secret_share.Bolt.{Engine, raw_at, json}
use secret_share.User.{User, normalize_email, Role, role_user, valid, role_admin}
use secret_share.Std.{Std}
use secret_share.Prelude.{
  inr, inl, eq_refl, Option-cases, Bool-cases, none, ◌∙◌, ◌⊎◌, ap, if◌then◌else◌, ◌∷◌, [], arith,
  false, refl, ◌≡◌, String, List, not, ◌&&◌, ◌||◌, Option, Bool, true, some, ◌==◌,
}
use secret_share.Oidc.Allow.{
  ClaimValue, items, single, is_empty, role_for, OidcConfig, email_of, match_email, any_group_match,
  IdClaims,
}

-- The first role that a rule gives.
abbrev first_role : Bool → Bool → Bool → Bool → Bool → Role
first_role by_email by_group by_user_group admins users =
    if by_email
    then role_admin
    else if by_group
    then role_admin
    else if by_user_group
    then role_user
    else if admins
    then role_admin
    else if users
    then role_user
    else ""

first_role-role_admin :
    (a b u d e : Bool) → (first_role a b u d e == role_admin) ≡ (a || b || (not u && d))
first_role-role_admin true b u d e = refl
first_role-role_admin false true u d e = refl
first_role-role_admin false false true d e = refl
first_role-role_admin false false false true e = refl
first_role-role_admin false false false false true = refl
first_role-role_admin false false false false false = refl

module _ (std : Std) (host_of : String → Option String) (cfg : OidcConfig) where
  -- Why a user may sign in: a list names the email, its domain or one of the groups, or there is
  -- no list at all.
  pub data IsListed (email : String) (gs : List String) : Type 0 where
    by_allowed : Memᴰ email cfg.allowed_emails → IsListed email gs
    by_admin : Memᴰ email cfg.admin_emails → IsListed email gs
    by_domain :
        (host : String)
        → host_of email ≡ some host
        → Memᴰ host cfg.allowed_domains
        → IsListed email gs
    by_admin_group :
        (g : String) → Memᴰ g gs → Memᴰ (std.to_lower g) cfg.admin_groups → IsListed email gs
    by_user_group :
        (g : String) → Memᴰ g gs → Memᴰ (std.to_lower g) cfg.user_groups → IsListed email gs
    unlisted :
        cfg.allowed_emails ≡ []
        → cfg.admin_emails ≡ []
        → cfg.allowed_domains ≡ []
        → cfg.admin_groups ≡ []
        → cfg.user_groups ≡ []
        → IsListed email gs

  -- The token names a group: in a list under the claim, or as the text under it.
  abbrev pub IsClaimed : IdClaims → String → Type 0
  IsClaimed c g =
      (m : String → Option ClaimValue) × (c.raw ≡ some m)
      × (((vs : List (Option String)) × (m cfg.groups_claim ≡ some (items vs)) × Memᴰ (some g) vs)
          ⊎ (m cfg.groups_claim ≡ some (single g)))

  any_group_match-is_empty :
      (gs want : List String) → is_empty want ≡ true → any_group_match std gs want ≡ false
  unfolding any_group_match match_email
  any_group_match-is_empty [] want h = refl
  any_group_match-is_empty (g ∷ gs) [] h = any_group_match-is_empty gs [] h
  any_group_match-is_empty (g ∷ gs) (w ∷ want) h = cc

  -- The admin role is granted to the admin emails, the admin groups, and everybody where it is the
  -- default. It is pinned exactly for the admin emails, and no role is granted exactly where no
  -- rule and no default gives one.
  pub role_for_lem :
      (c : IdClaims) (gs : List String)
      → let g = role_for std host_of cfg c gs in
        let by_email = match_email (email_of std host_of cfg c) cfg.admin_emails in
        let by_group = any_group_match std gs cfg.admin_groups in
        let by_user_group = any_group_match std gs cfg.user_groups in
        let fallback = std.to_lower (std.trim_space cfg.default_role) in
        ((g.role == role_admin)
          ≡ (by_email || by_group || (not by_user_group && fallback == role_admin)))
        × (g.pinned ≡ by_email)
        × (g.granted ≡ (by_email || by_group || by_user_group || valid fallback))
  unfolding role_for valid
  role_for_lem c gs =
      let no_admins = any_group_match-is_empty gs cfg.admin_groups in
      let no_users = any_group_match-is_empty gs cfg.user_groups in
      let a = match_email (email_of std host_of cfg c) cfg.admin_emails in
      let b = any_group_match std gs cfg.admin_groups in
      let u = any_group_match std gs cfg.user_groups in
      let fallback = std.to_lower (std.trim_space cfg.default_role) in
      let role : (role_for std host_of cfg c gs).role
          ≡ first_role a b u (fallback == role_admin) (fallback == role_user) =
        ground arith in
      (
        ap (λ r. r == role_admin) role
            ∙ first_role-role_admin a b u (fallback == role_admin) (fallback == role_user),
        ground arith,
        ground arith,
      )

module _ (std : Std) (host_of : String → Option String) (cfg : OidcConfig) (E : Engine) where
  -- After the write: the user is stored, or nothing changes.
  write_oidc_lem :
      (env : SsoEnv) (p : User) (s : UserStore std E)
      → let r = write_oidc std host_of cfg E env p s in
        ((r.0 ≡ none) × ((j : String) → raw_at E r.1 j ≡ raw_at E s j))
        ⊎ ((q : User) × (r.0 ≡ some q)
            × (q.role ≡ p.role)
            × (raw_at E r.1 (normalize_email std p.email) ≡ some (json q)))
  unfolding write_oidc stamp
  write_oidc_lem env p s =
      let k = normalize_email std p.email in
      elim (Option-cases (upsert std E env.save env.now p s).1) [
        | inr (e, lost) ↦
            inl (ground arith, λ j. ground (arith, upsert_lem std E env.save env.now p j s))
        | inl saved ↦ inr (
          (upsert std E env.save env.now p s).0,
          ground arith,
          ground (arith, upsert_lem std E env.save env.now p k s),
          ground (arith, upsert_lem std E env.save env.now p k s, eq_refl k),
        )
      ]

  -- A sign-in of a user that is stored succeeds only where the user is enabled and a rule, or a pin
  -- of the user, gives a role. It then stores the role: admin for a user that was pinned or whom
  -- the rules pin, and otherwise the one that the rules grant. One that is denied changes nothing.
  pub provision_oidc_lem :
      (env : SsoEnv) (c : IdClaims) (gs : List String) (s : UserStore std E) (p : User)
      → get_user std E c.email s ≡ (some p, none)
      → let r = provision_oidc std host_of cfg E env c gs s in
        let g = role_for std host_of cfg c gs in
        ((r.0 ≡ none) × ((j : String) → raw_at E r.1 j ≡ raw_at E s j))
        ⊎ ((q : User) × (r.0 ≡ some q)
            × (p.enabled ≡ true)
            × (g.granted || g.pinned || p.pinned ≡ true)
            × (q.role ≡ (if g.pinned || p.pinned then role_admin else g.role))
            × (raw_at E r.1 (normalize_email std p.email) ≡ some (json q)))
  unfolding provision_oidc provision_found signed_in
  provision_oidc_lem env c gs s p found =
      let g = role_for std host_of cfg c gs in
      let pin = g.pinned || p.pinned in
      let next = signed_in std host_of cfg E env.login c g.role pin p in
      let at : provision_oidc std host_of cfg E env c gs s
          ≡ provision_found std host_of cfg E env c g (some p) s =
        ground arith in
      elim (Bool-cases p.enabled) [
        | inr off ↦ inl (ground arith, λ j. ground arith)
        | inl on ↦ elim (Bool-cases (not g.granted && not pin)) [
          | inl none_granted ↦ inl (ground arith, λ j. ground arith)
          | inr some_granted ↦ elim (write_oidc_lem env next s) [
            | inl (nobody, same) ↦ inl (ground arith, λ j. ground (arith, same j))
            | inr (q, written, role, stored) ↦
                inr (q, ground arith, on, ground arith, ground arith, ground arith)
          ]
        ]
      ]
