-- ===== src/Tls.antt =====
-- The choice of the server's TLS configuration, internal/core/tlsutils/builder.go, with the entry
-- points of internal/core/tlsutils/tls.go that it calls.
use secret_share.Std.{Std}
use secret_share.Prelude.{
  refl, ap, ◌∙◌, eq_iff, arith, [], ◌≢◌, List, false, not, ◌∷◌, ◌||◌, ◌==◌, Bool, String, true,
  Option, ◌≡◌, none, some, ◌&&◌, if◌then◌else◌,
}
use secret_share.Http.{text}
use secret_share.Failure.{raised, Failure, failure_of, Checked, failing, passed, errorf}

abbrev pub mode_none : String
mode_none = "none"

abbrev pub mode_manual : String
mode_manual = "manual"

abbrev pub mode_self : String
mode_self = "self"

abbrev pub mode_acme : String
mode_acme = "acme"

pub record AcmeBlock : Type 0 where
  pub email : String
  pub cache_dir : String
  pub http_addr : String
  pub hosts : List String

pub record TlsConfig : Type 0 where
  pub mode : String
  pub cert : String
  pub key : String
  pub fqdn : String
  pub alg : String
  pub acme : AcmeBlock

-- The switch over no mode and "none" stands first in each of the functions.
unfoldable pub tls_enabled : TlsConfig → Bool
tls_enabled c = if c.mode == "" || c.mode == mode_none then false else true

abbrev pub needs_pair : Failure
needs_pair = errorf "server.tls.mode=manual requires both server.tls.cert and server.tls.key" []

abbrev pub needs_fqdn : Failure
needs_fqdn = errorf "server.tls.mode=self requires server.tls.fqdn (SAN for the generated cert)" []

abbrev pub needs_hosts : Failure
needs_hosts =
    errorf "server.tls.mode=acme requires at least one host under server.tls.acme.hosts" []

abbrev pub unknown_mode : String → Failure
unknown_mode mode =
    errorf "unknown server.tls.mode %q: want one of %q, %q, %q, %q"
      (text mode ∷ text mode_none ∷ text mode_manual ∷ text mode_self ∷ text mode_acme ∷ [])

abbrev has_no_host : AcmeBlock → Bool
has_no_host a = elim a.hosts [ [] ↦ true | h ∷ hs ↦ false ]

-- The algorithm that ValidateConfig knows.
abbrev pub knows_alg : Std → String → Bool
knows_alg std alg =
    let a = std.to_lower (std.trim_space alg) in a == "" || a == "rsa" || a == "ed25519"

unfoldable pub validate_config : Std → TlsConfig → Option Failure
validate_config std c =
    if c.mode == "" || c.mode == mode_none
    then none
    else if c.mode == mode_manual
    then (if c.cert == "" || c.key == "" then some needs_pair else none)
    else if c.mode == mode_self
    then (if c.fqdn == ""
        then some needs_fqdn
        else if knows_alg std c.alg
        then none
        else some
            (errorf "server.tls.alg %q invalid: want \"rsa\" or \"ed25519\"" (text c.alg ∷ [])))
    else if c.mode == mode_acme
    then (if has_no_host c.acme then some needs_hosts else none)
    else some (unknown_mode c.mode)

-- The calls of crypto/tls, crypto/x509 and autocert; none is an error. The configuration that they
-- make is not looked into.
pub record TlsCalls (T : Type 0) : Type 0 where
  pub load_pair : String → String → Option T
  pub self_signed_rsa : String → Option T
  pub self_signed_ed25519 : String → Option T
  -- the manager of the certificates: its mail, its directory, the address of the challenge, its hosts
  pub autocert : String → String → String → List String → T

module _ {T : Type 0} (std : Std) (calls : TlsCalls T) where
  abbrev of_call : String → Option T → Checked (Option T)
  of_call what none = failing (raised what)
  of_call what (some t) = passed (some t)

  unfoldable pub load_manual_tls : String → String → Checked (Option T)
  load_manual_tls cert key =
      if cert == "" || key == ""
      then passed none
      else of_call "tls.LoadX509KeyPair" (calls.load_pair cert key)

  unfoldable pub self_signed_tls : String → String → Checked (Option T)
  self_signed_tls fqdn alg =
      if std.to_lower (std.trim_space alg) == "ed25519"
      then of_call "selfSignedEd25519" (calls.self_signed_ed25519 fqdn)
      else of_call "selfSignedRSA" (calls.self_signed_rsa fqdn)

  -- AutoTLS of a block that is enabled.
  unfoldable pub auto_tls : AcmeBlock → T
  auto_tls a =
      let cache = if a.cache_dir == "" then "certs" else a.cache_dir in
      let addr = if a.http_addr == "" then ":80" else a.http_addr in
      calls.autocert a.email cache addr a.hosts

  -- No configuration for the mode "none".
  unfoldable pub build : TlsConfig → Checked (Option T)
  build c =
      if c.mode == "" || c.mode == mode_none
      then passed none
      else if c.mode == mode_manual
      then (if c.cert == "" || c.key == ""
          then failing needs_pair
          else load_manual_tls c.cert c.key)
      else if c.mode == mode_self
      then (if c.fqdn == "" then failing needs_fqdn else self_signed_tls c.fqdn c.alg)
      else if c.mode == mode_acme
      then (if has_no_host c.acme then failing needs_hosts else passed (some (auto_tls c.acme)))
      else failing (unknown_mode c.mode)

  -- Certificates load, and keys are made.
  pub record AreTotal : Type 0 where
    pub pair_loads : (cert key : String) → calls.load_pair cert key ≢ none
    pub rsa_is_made : (fqdn : String) → calls.self_signed_rsa fqdn ≢ none
    pub ed25519_is_made : (fqdn : String) → calls.self_signed_ed25519 fqdn ≢ none

  abbrev pub is_some : Option T → Bool
  is_some none = false
  is_some (some t) = true

  other_mode :
      (m n : String) → (n == mode_self) ≡ false → (m == n) ≡ true → (m == mode_self) ≡ false
  other_mode m n other same =
      let e : m ≡ n = ground (arith, eq_iff m n) in ap (λ k. k == mode_self) e ∙ other

  -- Where certificates load and keys are made, the check at the start (ValidateConfig) and the
  -- construction (Build) refuse the same settings with the same error, but for an unknown algorithm
  -- of a self-signed certificate, which Build accepts; what Build makes is a configuration exactly
  -- where Enabled says so; and in the mode "self", with a name, it is the Ed25519 one where that is
  -- asked for, and the RSA one for any other algorithm, known or not.
  pub build-validate_config :
      (c : TlsConfig)
      → AreTotal
      → let alg = std.to_lower (std.trim_space c.alg) in
        let unknown = not (alg == "" || alg == "rsa" || alg == "ed25519") in
        let made =
          if alg == "ed25519"
          then calls.self_signed_ed25519 c.fqdn
          else calls.self_signed_rsa c.fqdn in
        (failure_of (build c) ≡ (
          if c.mode == mode_self && not (c.fqdn == "") && unknown
          then none
          else validate_config std c))
        × ((o : Option T) → build c ≡ passed o → is_some o ≡ tls_enabled c)
        × (build (record c { mode = mode_self })
            ≡ (if c.fqdn == "" then failing needs_fqdn else passed made))
  unfolding build validate_config tls_enabled load_manual_tls self_signed_tls
  build-validate_config c total =
      let a = total.pair_loads c.cert c.key in
      let b = total.rsa_is_made c.fqdn in
      let d = total.ed25519_is_made c.fqdn in
      (
        ground (
          arith,
          other_mode c.mode "" refl,
          other_mode c.mode mode_none refl,
          other_mode c.mode mode_manual refl,
        ),
        λ o h. ground arith,
        ground arith,
      )
