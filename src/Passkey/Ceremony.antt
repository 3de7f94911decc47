-- ===== src/Passkey/Ceremony.antt =====
-- The relying party and the cookie of a ceremony, internal/domain/auth/webauthn.go.
use secret_share.Users.Store.{UserStore}
use secret_share.Std.{Std}
use secret_share.Secrets.Handler.{rejected, settled, Result}
use secret_share.Prelude.{◌==◌, Bool, String, some, false, none, Option, true, if◌then◌else◌}
use secret_share.Passkey.{CeremonyBox, WebAuthn}
use secret_share.Http.{bytes, internal, Reply, text}
use secret_share.Bolt.{Engine}

abbrev pub reg_cookie : String
reg_cookie = "share_wa_reg"

abbrev pub login_cookie : String
login_cookie = "share_wa_login"

-- The origin of the request that the relying party is built from.
unfoldable pub webauthn_service : WebAuthn → String → Result Unit
webauthn_service wa origin =
    if origin == ""
    then rejected (text "missing Origin (passkeys require a browser)")
    else elim (wa.url_hostname origin) [
      | none ↦ rejected (text "invalid Origin")
      | some host ↦
          if host == ""
          then rejected (text "invalid Origin")
          else elim (wa.new_party host origin) [ none ↦ settled tt | some e ↦ rejected (text e) ]
    ]

module _ (std : Std) (E : Engine) where
  -- The users, and the cookies that the response sets: the session, and the ceremony cookie by its
  -- name, blank where it is cleared.
  pub record PasskeyState : Type 0 where
    pub users : UserStore std E
    pub cookie : Option String
    pub ceremony : Option (String × String)

  -- Whether the cookie could be set, and the state with it.
  unfoldable pub set_webauthn_session :
      CeremonyBox → String → String → PasskeyState → Bool × PasskeyState
  set_webauthn_session box name session s = elim (box.seal_session session) [
    | none ↦ (false, s)
    | some enc ↦ (true, record s { ceremony = some (name, enc) })
  ]

  -- `value` is the cookie of the request. It is cleared first.
  unfoldable pub take_webauthn_session :
      CeremonyBox → String → String → PasskeyState → Option String × PasskeyState
  take_webauthn_session box name value s =
      let cleared' : PasskeyState = record s { ceremony = some (name, "") } in
      if value == "" then (none, cleared') else (box.open_session value, cleared')

  -- The end of an endpoint that begins a ceremony.
  unfoldable pub offer :
      CeremonyBox → String → Option (String × String) → PasskeyState → Reply PasskeyState
  offer box name none s = internal s
  offer box name (some (options, session)) s =
      let (set, s') = set_webauthn_session box name session s in
      if set then (none, record { status = 200; body = bytes options }, s') else internal s'
