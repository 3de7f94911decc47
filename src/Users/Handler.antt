-- ===== src/Users/Handler.antt =====
-- The endpoints of the admin-only user management, internal/domain/users/handler.go.
use secret_share.Users.Store.{delete_user, get_user, list_users, upsert, UserStore}
use secret_share.Users.Fields.{
  clear_passkeys_of, CreateReq, UserEnv, with_user, update_name, clear_totp_of, if_free, to_view,
  bad_length, UpdateReq, guard_lockout, update_enabled, new_user, update_role,
}
use secret_share.User.{
  source_local, parse_role, is_enabled_admin, User, normalize_email, set_password, source_oidc,
}
use secret_share.Std.{Std}
use secret_share.Prelude.{
  ◌==◌, not, String, some, ◌||◌, true, [], ◌∷◌, Option, ◌&&◌, ℕ, map, none, if◌then◌else◌,
}
use secret_share.Http.{
  parser_error, internal, Reply, reply, text, flag, error, bad_request, ok, listing,
}
use secret_share.Bolt.{Engine}

module _ (std : Std) (E : Engine) (passkey_count : String → Option ℕ) where
  -- The body that shows a user.
  abbrev view_of : ℕ → User → UserStore std E → Reply (UserStore std E)
  view_of code p s = reply code (to_view passkey_count p) s

  unfoldable pub list_handler : UserStore std E → Reply (UserStore std E)
  list_handler s =
      let (ps, err) = list_users std E s in
      elim err [
        | some e ↦ internal s
        | none ↦ (
          none,
          record { status = 200; body = listing "users" (map (to_view passkey_count) ps) },
          s,
        )
      ]

  -- The last steps of Create and Update.
  unfoldable pub save_user : ℕ → UserEnv → User → UserStore std E → Reply (UserStore std E)
  save_user code env p s =
      let (p', err, s') = upsert std E env.save env.now p s in
      elim err [ some e ↦ internal s' | none ↦ view_of code p' s' ]

  -- The end of Update: what is revoked, and the write.
  unfoldable pub finish_update :
      UserEnv → UpdateReq → User → UserStore std E → Reply (UserStore std E)
  finish_update env req p s =
      save_user 200 env (clear_passkeys_of req.clear_passkeys (clear_totp_of req.clear_totp p)) s

  -- After SetPassword, none where bcrypt fails.
  unfoldable pub with_password :
      UserEnv → UpdateReq → Option User → UserStore std E → Reply (UserStore std E)
  with_password env req none s = internal s
  with_password env req (some p) s =
      finish_update env req (if p.source == "" then record p { source = source_local } else p) s

  -- The part of Update after the guard, over the password of the request.
  unfoldable pub set_credentials :
      UserEnv → UpdateReq → Option String → User → UserStore std E → Reply (UserStore std E)
  set_credentials env req none next s = finish_update env req next s
  set_credentials env req (some pw) next s =
      if pw == ""
      then finish_update env req (record next { password_hash = "" }) s
      else if bad_length pw
      then error 400 (text "password must be 8-72 characters") s
      else with_password env req (set_password env.hash next) s

  unfoldable pub apply_update :
      UserEnv → UpdateReq → User → User → UserStore std E → Reply (UserStore std E)
  apply_update env req p next s =
      guard_lockout std E (text "cannot demote or disable the last enabled admin")
        (is_enabled_admin p && not (is_enabled_admin next)) p.email s
        (set_credentials env req req.password next s)

  -- Update once the name and the role are applied, none where the role is not known.
  unfoldable pub update_named :
      UserEnv → UpdateReq → User → Option User → UserStore std E → Reply (UserStore std E)
  update_named env req p none s = error 400 (text "role must be \"admin\" or \"user\"") s
  update_named env req p (some named) s =
      apply_update env req p (update_enabled req.enabled named) s

  -- Update of the user that was found; `body` is none where it does not parse.
  unfoldable pub update_found :
      UserEnv → Option UpdateReq → User → UserStore std E → Reply (UserStore std E)
  update_found env none p s = bad_request parser_error s
  update_found env (some req) p s =
      update_named env req p (update_role std req.role (update_name std.trim_space req.name p)) s

  unfoldable pub update_handler :
      UserEnv → String → Option UpdateReq → UserStore std E → Reply (UserStore std E)
  update_handler env param body s =
      with_user (get_user std E (normalize_email std param) s) s (λ p. update_found env body p s)

  -- Create from the password on.
  unfoldable pub create_account :
      UserEnv → CreateReq → User → UserStore std E → Reply (UserStore std E)
  create_account env req p s =
      if req.password == ""
      then save_user 201 env (record p { source = source_oidc }) s
      else if bad_length req.password
      then error 400 (text "password must be 8-72 characters") s
      else elim (set_password env.hash p) [
        | none ↦ internal s
        | some p' ↦ save_user 201 env (record p' { source = source_local }) s
      ]

  unfoldable pub create_user_handler :
      UserEnv → Option CreateReq → UserStore std E → Reply (UserStore std E)
  create_user_handler env none s = bad_request parser_error s
  create_user_handler env (some req) s =
      let email = normalize_email std req.email in
      let (role, known) = parse_role std req.role in
      if email == "" || not (std.contains email "@")
      then error 400 (text "a valid email is required") s
      else if not (req.role == "") && not known
      then error 400 (text "role must be \"admin\" or \"user\"") s
      else if_free (get_user std E email s) s
          (create_account env req (new_user std email role req) s)

  -- The write of Delete.
  unfoldable pub erase_user : UserEnv → String → UserStore std E → Reply (UserStore std E)
  erase_user env email s =
      let (_, err, s') = delete_user std E env.save email s in
      elim err [ some e ↦ internal s' | none ↦ ok (("ok", flag true) ∷ []) s' ]

  unfoldable pub delete_handler : UserEnv → String → UserStore std E → Reply (UserStore std E)
  delete_handler env param s =
      let email = normalize_email std param in
      with_user (get_user std E email s) s (λ p.
        guard_lockout std E (text "cannot delete the last enabled admin") (is_enabled_admin p)
          p.email s (erase_user env email s))
