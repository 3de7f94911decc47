-- ===== src/Server/Middleware.antt =====
-- The gates and the visibility middleware, internal/server/middleware.go. A middleware is a
-- function of the handler that c.Next() runs.
use secret_share.Config.{AuthConfig}
use secret_share.Visibility.Store.{read_private, drop_mark, set_private}
use secret_share.Users.Store.{UserStore, get_user}
use secret_share.User.{parse_role, Role, allows}
use secret_share.Std.{Std}
use secret_share.Session.{Codec, from_ctx, Claims}
use secret_share.Server.World.{Caller, Handler}
use secret_share.Prelude.{
  ◌==◌, some, not, ◌||◌, none, Bool, ◌&&◌, String, Option, if◌then◌else◌, eqb,
}
use secret_share.Http.{body_id, forbidden, Reply, unauthorized, internal, is_success}
use secret_share.Bolt.{Engine, Error}

module _ (std : Std) (E : Engine) (codec : Codec) (cfg : AuthConfig) where
  -- The claims of a good session of an enabled user, with the role that the store has.
  unfoldable pub verify_session : Caller → UserStore std E → Option Claims × Option Error
  verify_session caller users =
      elim (from_ctx codec caller.seconds caller.cookie cfg.session_secret) [
        | none ↦ (none, none)
        | some claims ↦
            let (found, err) = get_user std E claims.email users in
            elim err [
              | some e ↦ (none, some e)
              | none ↦ elim found [
                | none ↦ (none, none)
                | some p ↦
                    if p.enabled
                    then (some (record claims { role = p.role }), none)
                    else (none, none)
              ]
            ]
      ]

  -- A session is required; the handler is given its claims.
  unfoldable pub with_session : Caller → (Claims → Handler std E) → Handler std E
  with_session caller next w =
      let (claims, err) = verify_session caller w.users in
      elim err [
        | some e ↦ internal w
        | none ↦ elim claims [ none ↦ unauthorized "" w | some c ↦ next c w ]
      ]

  unfoldable pub require_auth : Caller → Handler std E → Handler std E
  require_auth caller next w = if cfg.enabled then with_session caller (λ _. next) w else next w

  unfoldable pub reveal_gate : Caller → String → Handler std E → Handler std E
  reveal_gate caller id next w =
      if cfg.enabled
      then (if cfg.gate == "all"
          then with_session caller (λ _. next) w
          else (let (private, err) = read_private E caller.view id w.visibility in
              elim err [
                | some e ↦ internal w
                | none ↦ if private then with_session caller (λ _. next) w else next w
              ]))
      else next w

  -- captureVisibility; `private` is what json.Unmarshal reads of the body, none for an error.
  unfoldable pub capture_visibility : Option Error → Option Bool → Handler std E → Handler std E
  capture_visibility mark private next w =
      let (err, resp, w') = next w in
      elim err [
        | some e ↦ (some e, resp, w')
        | none ↦
            if cfg.enabled && is_success resp.status
            then elim private [
              | none ↦ (none, resp, w')
              | some wanted ↦
                  if wanted
                  then elim (body_id resp.body) [
                    | none ↦ (none, resp, w')
                    | some id ↦ if id == "" then (none, resp, w') else (
                      none,
                      resp,
                      record w' { visibility = (set_private E mark id w'.visibility).2 },
                    )
                  ]
                  else (none, resp, w')
            ]
            else (none, resp, w')
      ]

module _ (std : Std) (E : Engine) (cfg : AuthConfig) where
  -- captureFileVisibility; `wanted` is whether the header X-Share-Private is "true".
  unfoldable pub capture_file_visibility : Option Error → Bool → Handler std E → Handler std E
  capture_file_visibility mark wanted next w =
      let (err, resp, w') = next w in
      elim err [
        | some e ↦ (some e, resp, w')
        | none ↦
            if not cfg.enabled || not wanted
            then (none, resp, w')
            else if not (is_success resp.status)
            then (none, resp, w')
            else elim (body_id resp.body) [
              | none ↦ (none, resp, w')
              | some id ↦ if id == "" then (none, resp, w') else (
                none,
                resp,
                record w' { visibility = (set_private E mark id w'.visibility).2 },
              )
            ]
      ]

module _ (std : Std) (E : Engine) where
  unfoldable pub drop_visibility_on_burn : Option Error → String → Handler std E → Handler std E
  drop_visibility_on_burn drop id next w =
      let (err, resp, w') = next w in
      elim err [
        | some e ↦ (some e, resp, w')
        | none ↦
            if eqb resp.status 200
            then (none, resp, record w' { visibility = (drop_mark E drop id w'.visibility).2 })
            else (none, resp, w')
      ]

-- requireRole: the claims that requireAuth left on the request, if it ran.
unfoldable pub require_role :
    {S : Type 0} → Std → Role → Option Claims → (S → Reply S) → S → Reply S
require_role std want none next s = unauthorized "" s
require_role std want (some claims) next s =
    if allows (parse_role std claims.role).0 want then next s else forbidden "insufficient role" s

-- What requireSameOrigin reads of a request: the method, two headers, the host of the Origin URL
-- (none where it does not parse), and the host of the request without its port.
pub record Origin : Type 0 where
  pub method : String
  pub fetch_site : String
  pub origin : String
  pub origin_host : Option String
  pub host : String

-- `equal_fold` is strings.EqualFold.
unfoldable pub require_same_origin :
    {S : Type 0} → (String → String → Bool) → Origin → (S → Reply S) → S → Reply S
require_same_origin equal_fold r next s =
    if r.method == "GET" || r.method == "HEAD" || r.method == "OPTIONS"
    then next s
    else if r.fetch_site == "same-origin" || r.fetch_site == "none"
    then next s
    else if r.fetch_site == "same-site" || r.fetch_site == "cross-site"
    then forbidden "cross-origin request blocked" s
    else if r.origin == ""
    then next s
    else elim r.origin_host [
      | none ↦ forbidden "cross-origin request blocked" s
      | some h ↦
          if not (h == "") && equal_fold h r.host
          then next s
          else forbidden "cross-origin request blocked" s
    ]
