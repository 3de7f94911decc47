-- ===== src/Config/Providers.antt =====
-- The checks on the settings of a sign-in provider, validateOIDCProvider of
-- internal/core/env/config.go.
use secret_share.Std.{Std}
use secret_share.Prelude.{
  true, ◌≡◌, arith, refl, has_no_dot, ◌<>◌, all_chars, String, Bool, ◌||◌, some, none, ◌∷◌, List,
  ◌==◌, ◌&&◌, Option, not, ℕ, [], leb, eqb, if◌then◌else◌,
}
use secret_share.Oidc.Allow.{match_email, is_empty}
use secret_share.Http.{text}
use secret_share.Failure.{Checked, errorf, Failure, and_then, passed, unless, failing}
use secret_share.Config.{OidcProviderConfig}

-- What the checks call of net/url (the scheme and the host, none for an error) and of strings.
pub record UrlCalls : Type 0 where
  pub parse_url : String → Option (String × String)
  pub has_suffix : String → String → Bool
  pub trim_right_slash : String → String

-- oidcIDPattern: one or more of a-z, 0-9, _ and -.
abbrev is_id_char : ℕ → Bool
is_id_char c = leb b'a' c && leb c b'z' || leb b'0' c && leb c b'9' || eqb c b'_' || eqb c b'-'

unfoldable pub matches_id : String → Bool
matches_id id = not (id == "") && all_chars is_id_char id

chars_no_dot : (s : String) → all_chars is_id_char s ≡ true → has_no_dot s ≡ true
chars_no_dot String.[] h = refl
chars_no_dot (String.◌∷◌ c s) h = ground (arith, chars_no_dot s)

-- An id of this form has no dot.
pub matches_id-has_no_dot : (id : String) → matches_id id ≡ true → has_no_dot id ≡ true
unfolding matches_id
matches_id-has_no_dot id h = chars_no_dot id (ground arith)

module _ (std : Std) where
  -- The loop of lowerTrimAll; an empty list is given back as it is.
  unfoldable pub lower_trim_all : List String → List String
  lower_trim_all [] = []
  lower_trim_all (s ∷ l) =
      let t = std.to_lower (std.trim_space s) in
      let rest = lower_trim_all l in if t == "" then rest else t ∷ rest

module _ (std : Std) (urls : UrlCalls) where
  unfoldable pub validate_https_url : String → String → Option Failure
  validate_https_url field raw =
      let wrong =
        some (errorf "%s %q invalid: want an absolute https URL" (text field ∷ text raw ∷ [])) in
      if std.trim_space raw == ""
      then some (errorf "%s is required" (text field ∷ []))
      else elim (urls.parse_url raw) [
        | none ↦ wrong
        | some (scheme, host) ↦ if not (scheme == "https") || host == "" then wrong else none
      ]

  -- The id, over the ids that are taken.
  unfoldable pub check_id : String → List String → Option Failure
  check_id id seen =
      if id == ""
      then some (errorf "auth.oidc: every provider needs an id" [])
      else if not (matches_id id)
      then some (
          errorf "auth.oidc provider id %q invalid: use only lowercase letters, digits, '-' and '_'"
            (text id ∷ []))
      else if match_email id seen
      then some (errorf "auth.oidc provider id %q is duplicated" (text id ∷ []))
      else none

  abbrev pub callback_path : String → String
  callback_path id = "/api/auth/oidc/" <> id <> "/callback"

  unfoldable pub check_client : OidcProviderConfig → Option Failure
  check_client p =
      if p.client_id == ""
      then some (errorf "auth.oidc.%s.client_id is required" (text p.id ∷ []))
      else if p.client_secret == ""
      then some (errorf "auth.oidc.%s.client_secret is required" (text p.id ∷ []))
      else none

  unfoldable pub check_redirect : OidcProviderConfig → Option Failure
  check_redirect p =
      let want = callback_path p.id in
      if not (urls.has_suffix (urls.trim_right_slash p.redirect_url) want)
      then some (errorf "auth.oidc.%s.redirect_url must end with %q" (text p.id ∷ text want ∷ []))
      else none

  unfoldable pub check_groups : OidcProviderConfig → Option Failure
  check_groups p =
      if (not (is_empty p.admin_groups) || not (is_empty p.user_groups))
        && std.trim_space p.groups_claim == ""
      then some
          (errorf "auth.oidc.%s sets admin_groups/user_groups but no groups_claim" (text p.id ∷ []))
      else none

  -- The default role in its normal form.
  unfoldable pub check_default_role : OidcProviderConfig → Checked String
  check_default_role p =
      let role = std.to_lower (std.trim_space p.default_role) in
      if role == "" || role == "none" || role == "admin" || role == "user"
      then passed role
      else failing (
          errorf "auth.oidc.%s.default_role %q invalid: want \"\", \"none\", \"admin\" or \"user\""
            (text p.id ∷ text p.default_role ∷ []))

  -- The match lists in the form in which a login compares them.
  unfoldable pub normalize_lists : OidcProviderConfig → OidcProviderConfig
  normalize_lists p = record p {
    allowed_domains = lower_trim_all std p.allowed_domains;
    allowed_emails = lower_trim_all std p.allowed_emails;
    admin_emails = lower_trim_all std p.admin_emails;
    admin_groups = lower_trim_all std p.admin_groups;
    user_groups = lower_trim_all std p.user_groups;
    groups_claim = std.trim_space p.groups_claim;
  }

  abbrev default_scopes : List String → List String
  default_scopes [] = "openid" ∷ "email" ∷ "profile" ∷ []
  default_scopes (s ∷ l) = s ∷ l

  -- From the label on, once the id is taken.
  unfoldable pub validate_fields : OidcProviderConfig → Checked OidcProviderConfig
  validate_fields p0 =
      let p : OidcProviderConfig = record p0 {
        label = if p0.label == "" then p0.id else p0.label;
      } in
      unless (validate_https_url ("auth.oidc." <> p.id <> ".issuer") p.issuer) (
        unless (check_client p) (
          unless (validate_https_url ("auth.oidc." <> p.id <> ".redirect_url") p.redirect_url) (
            unless (check_redirect p) (
              unless (check_groups p) (
                and_then (check_default_role p) (λ role. passed (
                  normalize_lists
                    (record p { scopes = default_scopes p.scopes; default_role = role }))))))))

  -- The provider, and the ids that are taken afterwards.
  unfoldable pub validate_oidc_provider :
      OidcProviderConfig → List String → Checked (OidcProviderConfig × List String)
  validate_oidc_provider p seen =
      let id = std.trim_space p.id in
      unless (check_id id seen)
        (and_then (validate_fields (record p { id = id })) (λ q. passed (q, id ∷ seen)))

  -- The loop over the providers.
  unfoldable pub validate_providers :
      List OidcProviderConfig → List String → Checked (List OidcProviderConfig)
  validate_providers [] seen = passed []
  validate_providers (p ∷ ps) seen =
      and_then (validate_oidc_provider p seen)
        (λ (q, seen'). and_then (validate_providers ps seen') (λ qs. passed (q ∷ qs)))
