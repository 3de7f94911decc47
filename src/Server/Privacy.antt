-- ===== src/Server/Privacy.antt =====
-- What a private secret is worth at the edge: from its create (captureVisibility) to the gate of
-- its reveal (revealGate), in internal/server/middleware.go.
use secret_share.Tests.Fixtures.{guest}
use secret_share.Server.Access.{HasSession, reveal_gate-guarded}
use secret_share.Account.Outcomes.{quiet}
use secret_share.Visibility.Marks.{set_private_lem}
use secret_share.Visibility.Store.{is_private, set_private, Marker}
use secret_share.Std.{Std}
use secret_share.Session.{Codec}
use secret_share.Server.World.{Handler, World}
use secret_share.Server.Routes.{
  CreateBody, RouteEnv, reveal_route, meta_route, on_secrets, create_route, ServerConfig,
}
use secret_share.Server.Multiview.{capture_views, record_views}
use secret_share.Server.Middleware.{
  reveal_gate, capture_visibility, with_session, verify_session, require_auth,
}
use secret_share.Secrets.Handler.{create_handler}
use secret_share.Prelude.{
  ◌∙◌, Bool, eq_refl, false, true, ◌⊎◌, Option, String, inl, none, inr, ◌==◌, ◌≡◌, some, arith,
  Bool-cases, Option-cases,
}
use secret_share.Http.{internal, body_id, unauthorized, is_success}
use secret_share.Bolt.{Error, Engine, opened}

module _ (std : Std) (E : Engine) (codec : Codec) (cfg : ServerConfig) where
  -- The create handler behind the two middleware that read the body.
  abbrev pub inner_create : RouteEnv → CreateBody → Handler std E
  inner_create env body =
      capture_views std E cfg.secrets env.budget body.views
        (on_secrets std E codec cfg (create_handler std E cfg.secrets env.handler body.parsed))

  inner_create_visibility :
      (env : RouteEnv) (body : CreateBody) (w : World std E)
      → (inner_create env body w).2.visibility ≡ w.visibility
  unfolding capture_views record_views on_secrets
  inner_create_visibility env body w = ground arith

  create_route_cases :
      (env : RouteEnv) (body : CreateBody) (w : World std E)
      → let r = create_route std E codec cfg env body w in
        let inner =
          capture_visibility std E codec cfg.auth env.mark body.private (inner_create env body) in
        (r ≡ inner w) ⊎ (is_success r.1.status ≡ false)
  unfolding create_route require_auth with_session
  create_route_cases env body w = elim (Bool-cases cfg.auth.enabled) [
    | inr off ↦ inl (ground arith)
    | inl on ↦ elim (Option-cases (verify_session std E codec cfg.auth env.caller w.users).1) [
      | inr (e, broken) ↦ inr (ground arith)
      | inl fine ↦ elim (Option-cases (verify_session std E codec cfg.auth env.caller w.users).0) [
        | inl denied ↦ inr (ground arith)
        | inr (c, known) ↦ inl (ground arith)
      ]
    ]
  ]

  capture_visibility_lem :
      (mark : Option Error) (wanted : Option Bool) (next : Handler std E) (w : World std E)
      (id : String) (b : Option (E.Bucket Marker))
      → cfg.auth.enabled ≡ true
      → wanted ≡ some true
      → (next w).2.visibility ≡ opened b
      → (set_private E mark id (opened b)).1 ≡ none
      → (id == "") ≡ false
      → let r = capture_visibility std E codec cfg.auth mark wanted next w in
        r.0 ≡ none
        → is_success r.1.status ≡ true
        → body_id r.1.body ≡ some id
        → is_private E id r.2.visibility ≡ true
  unfolding capture_visibility
  capture_visibility_lem mark wanted next w id b on asked vis marked filled fine success named =
      elim (Option-cases (next w).0) [
        | inr (e, broken) ↦ absurd (ground arith)
        | inl quiet ↦ elim (Bool-cases (is_success (next w).1.status)) [
          | inr bad ↦ absurd (ground arith)
          | inl well ↦ elim (Option-cases (body_id (next w).1.body)) [
            | inl unread ↦ absurd (ground arith)
            | inr (i, read) ↦ elim (Bool-cases (i == "")) [
              | inl blank ↦ absurd (ground arith)
              | inr there ↦ ground (arith, set_private_lem E mark id id b, eq_refl id)
            ]
          ]
        ]
      ]

  stranger_refused :
      (guest : RouteEnv) (id : String) (next : Handler std E) (w : World std E)
      → cfg.auth.enabled ≡ true
      → is_private E id w.visibility ≡ true
      → ¬ HasSession std E codec cfg.auth guest.caller w.users
      → let r = reveal_gate std E codec cfg.auth guest.caller id next w in
        (r ≡ unauthorized "" w) ⊎ (r ≡ internal w)
  stranger_refused guest id next w on shut stranger =
      elim (reveal_gate-guarded std E codec cfg.auth guest.caller id next w on (ground arith)) [
        | inl (session, runs) ↦ absurd (stranger session)
        | inr shut_out ↦ shut_out
      ]

  -- Where auth is on and bbolt writes and commits the mark, the id that a create for a private
  -- secret answers is private once it has answered, and a reveal or a peek is answered 401, or 500,
  -- and changes nothing, unless it comes in a good session, by a cookie that verifies, of a user
  -- that is stored and enabled.
  pub create_route-gated :
      (env guest : RouteEnv) (body : CreateBody) (w : World std E) (id : String)
      (b : Option (E.Bucket Marker))
      → cfg.auth.enabled ≡ true
      → body.private ≡ some true
      → w.visibility ≡ opened b
      → (set_private E env.mark id (opened b)).1 ≡ none
      → (create_route std E codec cfg env body w).0 ≡ none
      → is_success (create_route std E codec cfg env body w).1.status ≡ true
      → body_id (create_route std E codec cfg env body w).1.body ≡ some id
      → (id == "") ≡ false
      → ¬ HasSession std E codec cfg.auth guest.caller
          (create_route std E codec cfg env body w).2.users
      → let w' = (create_route std E codec cfg env body w).2 in
        let reveal = reveal_route std E codec cfg guest id w' in
        let peek = meta_route std E codec cfg guest id w' in
        (is_private E id w'.visibility ≡ true)
        × ((reveal ≡ unauthorized "" w') ⊎ (reveal ≡ internal w'))
        × ((peek ≡ unauthorized "" w') ⊎ (peek ≡ internal w'))
  create_route-gated env guest body w id b on wanted vis marked fine success named filled stranger =
      let private : is_private E id (create_route std E codec cfg env body w).2.visibility ≡ true =
        elim (create_route_cases env body w) [
          | inr failed_create ↦ absurd (ground arith)
          | inl runs ↦ rw runs (
              capture_visibility_lem env.mark body.private (inner_create env body) w id b on wanted
                (inner_create_visibility env body w ∙ vis) marked filled (rw runs at fine)
                (rw runs at success) (rw runs at named))
        ] in
      let w' = (create_route std E codec cfg env body w).2 in
      (
        private,
        unfold reveal_route in stranger_refused guest id _ w' on private stranger,
        unfold meta_route in stranger_refused guest id _ w' on private stranger,
      )
