-- ===== src/Oidc/Allow.antt =====
-- Who may sign in through a provider, and as what, internal/core/oidc/allow.go.
use secret_share.User.{role_user, role_admin, Role}
use secret_share.Std.{Std}
use secret_share.Prelude.{
  some, Option, none, ◌&&◌, ◌||◌, Bool, String, List, [], false, not, true, ◌∷◌, ◌==◌,
  if◌then◌else◌,
}

-- The part of the provider's settings that the rules read (internal/core/oidc/oidc.go).
pub record OidcConfig : Type 0 where
  pub require_email_verified : Bool
  pub allowed_domains : List String
  pub allowed_emails : List String
  pub groups_claim : String
  pub admin_emails : List String
  pub admin_groups : List String
  pub user_groups : List String
  pub default_role : String

-- A claim as encoding/json decodes it: a list, whose elements that are no texts are none, or a
-- text, or something else.
pub data ClaimValue : Type 0 where
  items : List (Option String) → ClaimValue
  single : String → ClaimValue
  unusable : ClaimValue

-- The claims of a verified token; `raw` is none for a nil map.
pub record IdClaims : Type 0 where
  pub subject : String
  pub email : String
  pub email_verified : Bool
  pub full_name : String
  pub raw : Option (String → Option ClaimValue)

-- matchEmail, and the loops over allowed domains and admin emails.
unfoldable pub match_email : String → List String → Bool
match_email email [] = false
match_email email (e ∷ want) = email == e || match_email email want

unfoldable pub any_group_match : Std → List String → List String → Bool
any_group_match std [] want = false
any_group_match std (g ∷ groups) want =
    match_email (std.to_lower g) want || any_group_match std groups want

unfoldable pub only_texts : List (Option String) → List String
only_texts [] = []
only_texts (none ∷ vs) = only_texts vs
only_texts (some s ∷ vs) = s ∷ only_texts vs

abbrev pub groups_of : Option ClaimValue → List String
groups_of none = []
groups_of (some (items vs)) = only_texts vs
groups_of (some (single s)) = s ∷ []
groups_of (some unusable) = []

unfoldable pub extract_groups : IdClaims → String → List String
extract_groups c claim =
    if claim == "" then [] else elim c.raw [ none ↦ [] | some m ↦ groups_of (m claim) ]

abbrev pub is_empty : List String → Bool
is_empty [] = true
is_empty (x ∷ xs) = false

-- What RoleFor grants: the role, whether it is pinned, whether any rule granted one.
pub record Grant : Type 0 where
  pub role : Role
  pub pinned : Bool
  pub granted : Bool

-- `host_of` is the text after the last "@", none without one (strings.LastIndex and a slice).
module _ (std : Std) (host_of : String → Option String) (cfg : OidcConfig) where
  abbrev pub email_of : IdClaims → String
  email_of c = std.trim_space (std.to_lower c.email)

  abbrev pub domain_allowed : String → Bool
  domain_allowed email = elim (host_of email) [
    | none ↦ false
    | some host ↦ match_email host cfg.allowed_domains
  ]

  -- No list restricts who may sign in.
  abbrev pub no_lists : Bool
  no_lists =
      is_empty cfg.allowed_emails
      && is_empty cfg.admin_emails
      && is_empty cfg.allowed_domains
      && is_empty cfg.admin_groups
      && is_empty cfg.user_groups

  -- The groups of a user who may sign in, none for an error.
  unfoldable pub admit : IdClaims → Option (List String)
  admit c =
      let email = email_of c in
      let gs = extract_groups c cfg.groups_claim in
      if cfg.require_email_verified && not c.email_verified
      then none
      else if match_email email cfg.allowed_emails || match_email email cfg.admin_emails
      then some gs
      else if not (is_empty cfg.allowed_domains) && domain_allowed email
      then some gs
      else if not (cfg.groups_claim == "")
          && not (is_empty cfg.admin_groups && is_empty cfg.user_groups)
          && (any_group_match std gs cfg.admin_groups || any_group_match std gs cfg.user_groups)
      then some gs
      else if no_lists
      then some gs
      else none

  abbrev grant : Role → Bool → Bool → Grant
  grant role pinned granted = record { role = role; pinned = pinned; granted = granted }

  unfoldable pub role_for : IdClaims → List String → Grant
  role_for c groups =
      let fallback = std.to_lower (std.trim_space cfg.default_role) in
      if match_email (email_of c) cfg.admin_emails
      then grant role_admin true true
      else if not (is_empty cfg.admin_groups) && any_group_match std groups cfg.admin_groups
      then grant role_admin false true
      else if not (is_empty cfg.user_groups) && any_group_match std groups cfg.user_groups
      then grant role_user false true
      else if fallback == role_admin
      then grant role_admin false true
      else if fallback == role_user
      then grant role_user false true
      else grant "" false false
