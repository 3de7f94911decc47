-- ===== src/Oidc/Registry.antt =====
-- The configured providers, internal/core/oidc/registry.go, and how internal/cli/serve.go builds
-- them from the settings.
use secret_share.Users.Fields.{or_true}
use secret_share.Prelude.{
  inl, inr, Bool-cases, eq_refl, eq_iff, map, none, not, String, ◌==◌, ◌∷◌, ◌++◌, refl, sym, [],
  Bool, some, ◌∙◌, List, ◌≡◌, true, Option, arith, All, lookup, if◌then◌else◌,
}
use secret_share.Oidc.Flow.{Provider}
use secret_share.Oidc.Allow.{match_email}
use secret_share.Http.{text}
use secret_share.Failure.{
  Failure, wrap, passed, failing, and_then-inv, passed-inj, Checked, wrapping, and_then,
}
use secret_share.Config.SignIn.{HasFreshIds}
use secret_share.Config.{OidcProviderConfig}
use mathlib.Core.Path.{subst}
use mathlib.Core.Option
use mathlib.Core.List.{append-nil, append_assoc}

-- The map of providers is an association list whose first pair counts.
pub record Registry : Type 0 where
  pub order : List String
  pub providers : List (String × Provider)

-- A provider as the settings describe it, by the mapping of buildOIDCRegistry.
unfoldable pub provider_of : OidcProviderConfig → Provider
provider_of p = record {
  id = p.id;
  label = p.label;
  issuer = p.issuer;
  rules = record {
    require_email_verified = or_true p.require_email_verified;
    allowed_domains = p.allowed_domains;
    allowed_emails = p.allowed_emails;
    groups_claim = p.groups_claim;
    admin_emails = p.admin_emails;
    admin_groups = p.admin_groups;
    user_groups = p.user_groups;
    default_role = p.default_role;
  };
}

-- The discovery of an issuer, whether it answers.
module _ (discovers : String → Bool) where
  -- New of internal/core/oidc/oidc.go.
  unfoldable pub new_provider : Provider → Checked Provider
  new_provider p =
      if discovers p.issuer
      then passed p
      else failing (wrapping "oidc discovery (%s): %w" (text p.issuer ∷ []))

  -- The loop of NewRegistry.
  unfoldable pub add_providers : List Provider → Registry → Checked Registry
  add_providers [] r = passed r
  add_providers (p ∷ ps) r =
      and_then (wrap (wrapping "oidc provider %q: %w" (text p.id ∷ [])) (new_provider p)) (λ q.
        add_providers ps
          (record { order = r.order ++ (p.id ∷ []); providers = (p.id, q) ∷ r.providers }))

  unfoldable pub new_registry : List Provider → Checked Registry
  new_registry ps = add_providers ps (record { order = []; providers = [] })

  unfoldable pub build_oidc_registry : List OidcProviderConfig → Checked Registry
  build_oidc_registry cfgs = new_registry (map provider_of cfgs)

-- A nil registry has no providers.
unfoldable pub get_provider : Option Registry → String → Option Provider
get_provider none id = none
get_provider (some r) id = lookup id r.providers

-- Label of internal/core/oidc/oidc.go; `url_host` is the host of a URL, none where it does not parse.
unfoldable pub label_of : (String → Option String) → Provider → String
label_of url_host p =
    if not (p.label == "")
    then p.label
    else elim (url_host p.issuer) [ none ↦ p.issuer | some h ↦ if h == "" then p.issuer else h ]

-- Buttons; an id without a provider would be a nil provider, and is none here.
unfoldable pub buttons : (String → Option String) → Option Registry → List (String × Option String)
buttons url_host none = []
buttons url_host (some r) =
    map (λ id. (id, Option.map (label_of url_host) (lookup id r.providers))) r.order

module _ (discovers : String → Bool) where
  new_provider_lem :
      (e : Failure) (p q : Provider) → wrap e (new_provider discovers p) ≡ passed q → q ≡ p
  unfolding new_provider wrap
  new_provider_lem e p q h = elim (Bool-cases (discovers p.issuer)) [
    | inl on ↦ sym (passed-inj p q (ground arith))
    | inr off ↦ absurd (ground arith)
  ]

  -- What the loop leaves: the given ids are kept, and each new one has its provider.
  add_providers_lem :
      (cfgs : List OidcProviderConfig) (seen : List String) (r t : Registry)
      → HasFreshIds seen cfgs
      → add_providers discovers (map provider_of cfgs) r ≡ passed t
      → All (λ c. lookup c.id t.providers ≡ some (provider_of c)) cfgs
        × ((k : String) → match_email k seen ≡ true → lookup k t.providers ≡ lookup k r.providers)
        × (t.order ≡ r.order ++ map (λ (c : OidcProviderConfig). c.id) cfgs)
  unfolding add_providers provider_of match_email
  add_providers_lem [] seen r t fresh_ids h =
      subst
        (λ x.
          Unit
          × ((k : String) → match_email k seen ≡ true → lookup k x.providers ≡ lookup k r.providers)
          × (x.order ≡ r.order ++ []))
        (passed-inj r t h) (tt, λ k _. refl, sym (append-nil r.order))
  add_providers_lem (c ∷ cs) seen r t (free, rest) h =
      let (q, made, more) = and_then-inv _ _ t h in
      let r' : Registry = record {
        order = r.order ++ (c.id ∷ []);
        providers = (c.id, q) ∷ r.providers;
      } in
      let (found, old, order) = add_providers_lem cs (c.id ∷ seen) r' t rest more in
      let same : q ≡ provider_of c = new_provider_lem _ (provider_of c) q made in
      (
        (old c.id (ground (arith, eq_refl c.id)) ∙ ground (arith, eq_refl c.id), found),
        λ k inside. old k (ground arith) ∙ ground (arith, eq_iff c.id k, inside, free),
        order ∙ append_assoc r.order (c.id ∷ []) (map (λ (x : OidcProviderConfig). x.id) cs),
      )

  -- A registry that is built from settings whose ids are distinct has the provider of every entry
  -- under its id, and lists the ids in the order of the settings.
  pub build_oidc_registry_lem :
      (cfgs : List OidcProviderConfig) (r : Registry)
      → HasFreshIds [] cfgs
      → build_oidc_registry discovers cfgs ≡ passed r
      → All (λ c. get_provider (some r) c.id ≡ some (provider_of c)) cfgs
        × (r.order ≡ map (λ (c : OidcProviderConfig). c.id) cfgs)
  unfolding build_oidc_registry new_registry get_provider
  build_oidc_registry_lem cfgs r fresh_ids h =
      let empty : Registry = record { order = []; providers = [] } in
      let (found, old, order) = add_providers_lem cfgs [] empty r fresh_ids h in (found, order)
