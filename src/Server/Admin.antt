-- ===== src/Server/Admin.antt =====
-- The routes of the user administration, internal/server/routes.go: the gate of the session, the
-- role, and the handler; and who gets through to the store of users.
use secret_share.Users.Store.{UserStore}
use secret_share.Users.Requests.{
  creates, after_request, updates, request-IsManned, deletes, Request,
}
use secret_share.Users.Manned.{IsManned}
use secret_share.Users.Handler.{delete_handler, list_handler, create_user_handler, update_handler}
use secret_share.User.{role_user, Role, role_admin, allows, parse_role}
use secret_share.Std.{Std}
use secret_share.Session.{Codec}
use secret_share.Server.World.{Handler, World, Caller}
use secret_share.Server.Middleware.{with_session, require_role, verify_session}
use secret_share.Server.Access.{verify_session_sound, HasSession}
use secret_share.Prelude.{
  ◌==◌, false, Bool, refl, eq_iff, String, sym, ◌⊎◌, inr, Option, ◌∙◌, ℕ, arith, inl, true, ◌≡◌,
  some, ap, if◌then◌else◌, Option-cases, Bool-cases,
}
use secret_share.Http.{not_found, Reply}
use secret_share.Config.{AuthConfig}
use secret_share.Bolt.{Engine}
use mathlib.Core.Path.{subst}

module _ (std : Std) (E : Engine) (codec : Codec) (passkey_count : String → Option ℕ)
    (cfg : AuthConfig) where
  -- A handler of the users domain, over all the stores.
  unfoldable pub on_users : (UserStore std E → Reply (UserStore std E)) → Handler std E
  on_users h w = let (err, resp, s') = h w.users in (err, resp, record w { users = s' })

  -- Without auth these routes are not mounted, and the path is an unknown one.
  unfoldable pub admin_route : Caller → Handler std E → Handler std E
  admin_route caller next w =
      if cfg.enabled
      then with_session std E codec cfg caller (λ c. require_role std role_admin (some c) next) w
      else not_found "" w

  unfoldable pub user_list_route : Caller → Handler std E
  user_list_route caller = admin_route caller (on_users (list_handler std E passkey_count))

  unfoldable pub user_handler : Request → UserStore std E → Reply (UserStore std E)
  user_handler (creates env body) s = create_user_handler std E passkey_count env body s
  user_handler (updates env param body) s = update_handler std E passkey_count env param body s
  user_handler (deletes env param) s = delete_handler std E passkey_count env param s

  unfoldable pub users_route : Caller → Request → Handler std E
  users_route caller r = admin_route caller (on_users (user_handler r))

  -- A good session of an enabled user that is stored as an admin.
  abbrev pub IsAdmin : Caller → UserStore std E → Type 0
  IsAdmin caller users =
      (s : HasSession std E codec cfg caller users) × (std.to_lower (std.trim_space s.user.role)
        ≡ "admin")

  parsed_role :
      (a u : Bool)
      → let r : Role × Bool =
          if a then (role_admin, true) else if u then (role_user, true) else (role_user, false) in
        allows r.0 role_admin ≡ true → a ≡ true
  unfolding allows
  parsed_role true u h = refl
  parsed_role false true h = h
  parsed_role false false h = h

  admin_role :
      (role : Role)
      → allows (parse_role std role).0 role_admin ≡ true
      → std.to_lower (std.trim_space role) ≡ "admin"
  unfolding parse_role
  admin_role role h =
      let r = std.to_lower (std.trim_space role) in
      let same : (r == "admin") ≡ true = parsed_role (r == role_admin) (r == role_user) h in
      ground (arith, same, eq_iff r "admin")

  -- The handler runs for an admin; any other caller leaves everything as it was.
  admin_route_lem :
      (caller : Caller) (next : Handler std E) (w : World std E)
      → ((admin_route caller next w).2 ≡ w)
        ⊎ (IsAdmin caller w.users × (admin_route caller next w ≡ next w))
  unfolding admin_route with_session require_role
  admin_route_lem caller next w = elim (Bool-cases cfg.enabled) [
    | inr off ↦ inl (ground arith)
    | inl on ↦ elim (Option-cases (verify_session std E codec cfg caller w.users).1) [
      | inr (e, broken) ↦ inl (ground arith)
      | inl fine ↦ elim (Option-cases (verify_session std E codec cfg caller w.users).0) [
        | inl denied ↦ inl (ground arith)
        | inr (c, known) ↦ elim (Bool-cases (allows (parse_role std c.role).0 role_admin)) [
          | inr low ↦ inl (ground arith)
          | inl high ↦
              let (session, role) = verify_session_sound std E codec cfg caller w.users c known in
              inr (
                (
                  session,
                  admin_role session.user.role
                      (ap (λ r. allows (parse_role std r).0 role_admin) (sym role) ∙ high),
                ),
                ground arith,
              )
        ]
      ]
    ]
  ]

  handled :
      (r : Request) (s : UserStore std E)
      → IsManned std E passkey_count s
      → IsManned std E passkey_count (user_handler r s).2
  unfolding user_handler after_request
  handled (creates env body) s h = request-IsManned std E passkey_count (creates env body) s h
  handled (updates env param body) s h =
      request-IsManned std E passkey_count (updates env param body) s h
  handled (deletes env param) s h = request-IsManned std E passkey_count (deletes env param) s h

  -- What a request of the administration may do to the stores.
  pub record IsGuarded (caller : Caller) (w w' : World std E) : Type 0 where
    pub admin : IsAdmin caller w.users
    pub others : w' ≡ record w { users = w'.users }

  -- A request to create, update or delete a user changes nothing at all, or its caller has a good
  -- session of an enabled user whose stored role is admin, but for its case and the spaces round
  -- it. Then it changes the store of users alone.
  pub users_route-IsGuarded :
      (caller : Caller) (r : Request) (w : World std E)
      → ((users_route caller r w).2 ≡ w) ⊎ IsGuarded caller w (users_route caller r w).2
  unfolding users_route on_users
  users_route-IsGuarded caller r w = elim (admin_route_lem caller (on_users (user_handler r)) w) [
    | inl same ↦ inl same
    | inr (admin, through) ↦ inr (record {
      admin = admin;
      others = ap (λ o. o.2) through ∙ ap (λ o. record w { users = o.2.users }) (sym through);
    })
  ]

  -- Behind the gate as well, some admin stays enabled.
  pub users_route-IsManned :
      (caller : Caller) (r : Request) (w : World std E)
      → IsManned std E passkey_count w.users
      → IsManned std E passkey_count (users_route caller r w).2.users
  unfolding users_route on_users
  users_route-IsManned caller r w h = elim (admin_route_lem caller (on_users (user_handler r)) w) [
    | inl same ↦ subst (λ v. IsManned std E passkey_count v.users) (sym same) h
    | inr (admin, through) ↦
        subst (λ o. IsManned std E passkey_count o.2.users) (sym through) (handled r w.users h)
  ]
