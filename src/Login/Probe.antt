-- ===== src/Login/Probe.antt =====
-- The questions that the browser asks before it shows a page, and its way out: Me, Info and Logout
-- of internal/domain/auth/handler.go. Me and the gate of internal/server/middleware.go both read the
-- session anew.
use secret_share.Session.Cookie.{Cookie, clear_session}
use secret_share.Http.{ok, flag, Reply}
use secret_share.Users.Laws.{get_user_lem}
use secret_share.Users.Store.{read_user, UserBytes, UserStore, get_user}
use secret_share.User.{normalize_email, User}
use secret_share.Std.{Std}
use secret_share.Session.{Claims, Codec, from_ctx}
use secret_share.Server.World.{Caller}
use secret_share.Server.Middleware.{verify_session}
use secret_share.Prelude.{
  ap, ◌∷◌, [], Bool-cases, inl, not, Bool, ◌≡◌, inr, some, Option, ◌==◌, ◌⊎◌, none, true, String,
  List, ◌&&◌, false, refl, arith, if◌then◌else◌, Option-cases,
}
use secret_share.Oidc.Registry.{Registry, buttons}
use secret_share.Config.{AuthConfig}
use secret_share.Bolt.{json, junk, raw_at, Engine, Error}

-- What the answer shows of the user.
pub record Shown : Type 0 where
  pub sub : String
  pub email : String
  pub name : String
  pub groups : List String
  pub role : String
  pub totp_enabled : Bool
  pub has_password : Bool
  pub source : String

pub record MeBody : Type 0 where
  pub auth_enabled : Bool
  pub user : Option Shown

pub record InfoBody : Type 0 where
  pub auth_enabled : Bool
  pub gate : String
  pub password_enabled : Bool
  pub passkey_enabled : Bool
  -- the id and the label of each provider (oidcButtons)
  pub oidc_providers : List (String × Option String)

unfoldable pub info : (String → Option String) → AuthConfig → Option Registry → InfoBody
info url_host cfg registry =
    let local_on = cfg.enabled && cfg.local_login in
    record {
      auth_enabled = cfg.enabled;
      gate = cfg.gate;
      password_enabled = local_on;
      passkey_enabled = local_on;
      oidc_providers = buttons url_host registry;
    }

-- `secure` is what Handler.secure tells.
unfoldable pub logout : {S : Type 0} → Bool → S → Reply S × Cookie
logout secure s = (ok (("ok", flag true) ∷ []) s, clear_session secure)

-- The claims of the cookie, before the store is asked.
abbrev pub shown_of : Claims → Shown
shown_of c = record {
  sub = c.subject;
  email = c.email;
  name = c.name;
  groups = c.groups;
  role = c.role;
  totp_enabled = false;
  has_password = false;
  source = "";
}

module _ (std : Std) (E : Engine) (codec : Codec) (cfg : AuthConfig) where
  -- What the store adds, where the lookup has no error and finds a user; none for one that is
  -- disabled.
  abbrev refreshed : Shown → Option User × Option Error → Option Shown
  refreshed u (found, some e) = some u
  refreshed u (none, none) = some u
  refreshed u (some p, none) =
      if not p.enabled
      then none
      else some (record u {
        role = p.role;
        totp_enabled = p.totp_enabled;
        has_password = not (p.password_hash == "");
        source = p.source;
      })

  unfoldable pub me : Caller → UserStore std E → MeBody
  me caller users =
      if not cfg.enabled
      then record { auth_enabled = false; user = none }
      else elim (from_ctx codec caller.seconds caller.cookie cfg.session_secret) [
        | none ↦ record { auth_enabled = true; user = none }
        | some claims ↦ record {
          auth_enabled = true;
          user = refreshed (shown_of claims) (get_user std E claims.email users);
        }
      ]

  -- The user that the answer shows is the one that the gate lets through.
  abbrev pub IsAgreed : Caller → UserStore std E → Shown → Type 0
  IsAgreed caller users u =
      (c : Claims) × (verify_session std E codec cfg caller users ≡ (some c, none))
      × (u.sub ≡ c.subject)
      × (u.email ≡ c.email)
      × (u.name ≡ c.name)
      × (u.role ≡ c.role)

  -- The answer shows what the cookie says, though the store has no such user or cannot be read, and
  -- the gate lets nobody through.
  abbrev pub IsStale : Caller → UserStore std E → Shown → Type 0
  IsStale caller users u =
      (c : Claims) × (from_ctx codec caller.seconds caller.cookie cfg.session_secret ≡ some c)
      × ((get_user std E c.email users).0 ≡ none)
      × ((verify_session std E codec cfg caller users).0 ≡ none)
      × (u ≡ shown_of c)

  -- Where auth is on, Me and the gate agree but in one case. Me shows nobody only where the gate
  -- finds no session; a user that it shows is one that the gate lets through, under the same email
  -- and with the same role, or the cookie is good but the store has no such user or fails, where Me
  -- shows the role of the cookie and the gate lets nobody through.
  pub me-verify_session :
      (caller : Caller) (users : UserStore std E)
      → cfg.enabled ≡ true
      → (((me caller users).user ≡ none)
          × (verify_session std E codec cfg caller users ≡ (none, none)))
        ⊎ ((u : Shown) × ((me caller users).user ≡ some u)
            × (IsAgreed caller users u ⊎ IsStale caller users u))
  unfolding me verify_session
  me-verify_session caller users on =
      elim (Option-cases (from_ctx codec caller.seconds caller.cookie cfg.session_secret)) [
        | inl unread ↦ inl (ground arith, ground arith)
        | inr (c, good) ↦
            looked c good (raw_at E users (normalize_email std c.email))
              (get_user_lem std E c.email users)
      ]
    where
      looked :
          (c : Claims)
          → from_ctx codec caller.seconds caller.cookie cfg.session_secret ≡ some c
          → (raw : Option UserBytes) → get_user std E c.email users ≡ read_user raw
          → (((me caller users).user ≡ none)
              × (verify_session std E codec cfg caller users ≡ (none, none)))
            ⊎ ((u : Shown) × ((me caller users).user ≡ some u)
                × (IsAgreed caller users u ⊎ IsStale caller users u))
      looked c good none read =
          inr (shown_of c, ground arith, inr (c, good, ground arith, ground arith, refl))
      looked c good (some junk) read =
          inr (shown_of c, ground arith, inr (c, good, ground arith, ground arith, refl))
      looked c good (some (json p)) read = elim (Bool-cases p.enabled) [
        | inr off ↦ inl (ground arith, ground arith)
        | inl enabled ↦ inr (
          record (shown_of c) {
            role = p.role;
            totp_enabled = p.totp_enabled;
            has_password = not (p.password_hash == "");
            source = p.source;
          },
          ground arith,
          inl (record c { role = p.role }, ground arith, refl, refl, refl, refl),
        )
      ]

  -- After a logout, the value that is left in the cookie is no session, to Me and to the gate.
  pub me-logout :
      (caller : Caller) (is_tls : Bool) (users : UserStore std E)
      → caller.cookie ≡ (logout is_tls users).1.value
      → ((me caller users).user ≡ none)
        × (verify_session std E codec cfg caller users ≡ (none, none))
  unfolding me verify_session logout clear_session from_ctx
  me-logout caller is_tls users h =
      let blank : (caller.cookie == "") ≡ true = ap (λ v. v == "") h in
      (ground (arith, blank), ground (arith, blank))
