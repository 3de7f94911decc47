-- ===== src/Users/Requests.antt =====
-- The lockout guard over the requests of the admin API, and over sequences of them
-- (internal/domain/users/handler.go).
use secret_share.Users.Handler.{
  erase_user, create_account, update_handler, update_found, save_user, delete_handler, update_named,
  create_user_handler,
}
use secret_share.Users.Fields.{
  UpdateReq, CreateReq, update_name, with_user, new_user, update_enabled, if_free, UserEnv,
  update_role, bad_length,
}
use secret_share.Users.Store.{UserStore, get_user, delete_user}
use secret_share.Users.Lockout.{HasOther, delete_user-IsKeyed, IsSafe}
use secret_share.User.{
  source_oidc, normalize_email, set_password, source_local, is_enabled_admin, parse_role,
  normalize_email_idem, User,
}
use secret_share.Std.{Std}
use secret_share.Prelude.{
  false, ap, List, inl, ℕ, ◌⊎◌, ◌==◌, not, ◌≡◌, arith, sym, ◌∙◌, String, ◌||◌, some, Option, [],
  ◌∷◌, eq_iff, refl, inr, none, ◌&&◌, Bool-cases,
}
use secret_share.Http.{internal, Reply}
use secret_share.Bolt.{Engine, raw_at, Error}
use secret_share.Users.Manned.{
  IsManned, found_keyed, update_keeps, guard_lockout-IsManned, IsKept, save_user-IsManned,
  apply_update-IsManned,
}
use secret_share.Users.Laws.{get_user_lem, delete_user_lem}
use mathlib.Core.Path.{subst}

-- A request of the admin API, with what its handler reads from the world.
pub data Request : Type 0 where
  creates : UserEnv → Option CreateReq → Request
  updates : UserEnv → String → Option UpdateReq → Request
  deletes : UserEnv → String → Request

module _ (std : Std) (E : Engine) (passkey_count : String → Option ℕ) where
  named-IsManned :
      (env : UserEnv) (req : UpdateReq) (p : User) (named : Option User) (s : UserStore std E)
      → IsManned std E passkey_count s
      → IsKept std E passkey_count p s
      → ((q : User) → named ≡ some q → (update_enabled req.enabled q).email ≡ p.email)
      → IsManned std E passkey_count (update_named std E passkey_count env req p named s).2
  unfolding update_named
  named-IsManned env req p none s h kept mail = h
  named-IsManned env req p (some q) s h (at, normal) mail =
      apply_update-IsManned std E passkey_count env req p (update_enabled req.enabled q) s h at
        normal (mail q refl)

  found-IsManned :
      (env : UserEnv) (body : Option UpdateReq) (p : User) (s : UserStore std E)
      → IsManned std E passkey_count s
      → IsKept std E passkey_count p s
      → IsManned std E passkey_count (update_found std E passkey_count env body p s).2
  unfolding update_found
  found-IsManned env none p s h kept = h
  found-IsManned env (some req) p s h kept =
      named-IsManned env req p (update_role std req.role (update_name std.trim_space req.name p)) s
        h kept (λ q e. update_keeps std req p q e)

  -- What is left of the bucket after a delete that the guard let through.
  erase_user-IsManned :
      (env : UserEnv) (param : String) (p : User) (s : UserStore std E)
      → IsManned std E passkey_count s
      → IsKept std E passkey_count p s
      → p.email ≡ normalize_email std param
      → (is_enabled_admin p ≡ false) ⊎ HasOther std E p.email s
      → IsManned std E passkey_count
          (erase_user std E passkey_count env (normalize_email std param) s).2
  unfolding erase_user
  erase_user-IsManned env param p s h kept mail g =
      let email = normalize_email std param in
      let gone = delete_user std E env.save email s in
      let same : (erase_user std E passkey_count env email s).2 ≡ gone.2 = ground arith in
      subst (IsManned std E passkey_count) (sym same) (record {
        keyed = delete_user-IsKeyed std E env.save email s h.keyed;
        admin =
            let (k, u, at, passes, other) = elim g as (λ _. HasOther std E p.email s) [
              | inr o ↦ o
              | inl plain ↦ (
                h.admin.0,
                h.admin.1,
                h.admin.2,
                h.admin.3,
                ground (arith, eq_iff p.email h.admin.0),
              )
            ] in
            (
              k,
              u,
              ground (
                arith,
                delete_user_lem std E env.save email k s,
                normalize_email_idem std param,
                ap (λ e. e == k) mail,
              ),
              passes,
            );
      })

  with_user-IsManned :
      (found : Option User × Option Error) (s : UserStore std E)
      (go : User → Reply (UserStore std E))
      → IsManned std E passkey_count s
      → ((p : User) → found.0 ≡ some p → IsManned std E passkey_count (go p).2)
      → IsManned std E passkey_count (with_user found s go).2
  unfolding with_user
  with_user-IsManned (found, some e) s go h keep = h
  with_user-IsManned (none, none) s go h keep = h
  with_user-IsManned (some p, none) s go h keep = keep p refl

  update_handler-IsManned :
      (env : UserEnv) (param : String) (body : Option UpdateReq) (s : UserStore std E)
      → IsManned std E passkey_count s
      → IsManned std E passkey_count (update_handler std E passkey_count env param body s).2
  unfolding update_handler
  update_handler-IsManned env param body s h =
      with_user-IsManned (get_user std E (normalize_email std param) s) s _ h
        (λ p e. found-IsManned env body p s h (found_keyed std E passkey_count param p s h e).0)

  delete_handler-IsManned :
      (env : UserEnv) (param : String) (s : UserStore std E)
      → IsManned std E passkey_count s
      → IsManned std E passkey_count (delete_handler std E passkey_count env param s).2
  unfolding delete_handler
  delete_handler-IsManned env param s h =
      with_user-IsManned (get_user std E (normalize_email std param) s) s _ h (λ p e.
        guard_lockout-IsManned std E passkey_count _ _ p.email s _ h (λ g.
          erase_user-IsManned env param p s h (found_keyed std E passkey_count param p s h e).0
            (found_keyed std E passkey_count param p s h e).1 g))

  if_free-IsManned :
      (found : Option User × Option Error) (s : UserStore std E) (go : Reply (UserStore std E))
      → IsManned std E passkey_count s
      → (found ≡ (none, none) → IsManned std E passkey_count go.2)
      → IsManned std E passkey_count (if_free found s go).2
  unfolding if_free
  if_free-IsManned (found, some e) s go h keep = h
  if_free-IsManned (some p, none) s go h keep = h
  if_free-IsManned (none, none) s go h keep = keep refl

  -- A user that is written under a free email displaces nobody.
  IsSafe-of_free :
      (email : String) (q : User) (s : UserStore std E)
      → IsManned std E passkey_count s
      → q.email ≡ normalize_email std email
      → get_user std E (normalize_email std email) s ≡ (none, none)
      → IsSafe std E q s
  IsSafe-of_free email q s h mail free =
      let n = normalize_email std email in
      let (k, u, at, passes) = h.admin in
      let normal = normalize_email_idem std email in
      let absent : raw_at E s n ≡ none =
        ground (arith, get_user_lem std E n s, normal, ap (λ r. r.0) free, ap (λ r. r.1) free) in
      let same : normalize_email std q.email ≡ n = ap (normalize_email std) mail ∙ normal in
      inr (k, u, at, passes, ground (arith, eq_iff (normalize_email std q.email) k))

  create_account-IsManned :
      (env : UserEnv) (req : CreateReq) (q : User) (s : UserStore std E)
      → IsManned std E passkey_count s
      → ((p : User) → p.email ≡ q.email → IsSafe std E p s)
      → IsManned std E passkey_count (create_account std E passkey_count env req q s).2
  unfolding create_account
  create_account-IsManned env req q s h safe = elim (Bool-cases (req.password == "")) [
    | inl blank ↦
        let p : User = record q { source = source_oidc } in
        rw blank (save_user-IsManned std E passkey_count 201 env p s (h, safe p refl))
    | inr filled ↦ rw filled (elim (Bool-cases (bad_length req.password)) [
      | inl long ↦ rw long h
      | inr fits ↦ rw fits (hash env.hash)
    ])
  ]
    where
      hash :
          (o : Option String)
          → IsManned std E passkey_count
              (elim (set_password o q) as (λ _. Reply (UserStore std E)) [
                | none ↦ internal s
                | some p' ↦
                    save_user std E passkey_count 201 env (record p' { source = source_local }) s
              ]).2
      hash none = unfold set_password in h
      hash (some c) =
          let p : User = record q { password_hash = c; source = source_local } in
          unfold set_password in save_user-IsManned std E passkey_count 201 env p s (h, safe p refl)

  create_user_handler-IsManned :
      (env : UserEnv) (body : Option CreateReq) (s : UserStore std E)
      → IsManned std E passkey_count s
      → IsManned std E passkey_count (create_user_handler std E passkey_count env body s).2
  unfolding create_user_handler
  create_user_handler-IsManned env none s h = h
  create_user_handler-IsManned env (some req) s h =
      let email = normalize_email std req.email in
      let q = new_user std email (parse_role std req.role).0 req in
      let go = create_account std E passkey_count env req q s in
      elim (Bool-cases (email == "" || not (std.contains email "@"))) [
        | inl wrong ↦ rw wrong h
        | inr right ↦
            rw right (elim (Bool-cases (not (req.role == "") && not (parse_role std req.role).1)) [
              | inl unknown ↦ rw unknown h
              | inr known ↦ rw known (
                  if_free-IsManned (get_user std E email s) s go h (λ free.
                    create_account-IsManned env req q s h (λ p mail.
                      IsSafe-of_free req.email p s h (mail ∙ (unfold new_user in refl)) free)))
            ])
      ]

  -- The store after a request.
  unfoldable pub after_request : Request → UserStore std E → UserStore std E
  after_request (creates env body) s = (create_user_handler std E passkey_count env body s).2
  after_request (updates env param body) s = (update_handler std E passkey_count env param body s).2
  after_request (deletes env param) s = (delete_handler std E passkey_count env param s).2

  unfoldable pub after_requests : List Request → UserStore std E → UserStore std E
  after_requests [] s = s
  after_requests (r ∷ rest) s = after_requests rest (after_request r s)

  pub request-IsManned :
      (r : Request) (s : UserStore std E)
      → IsManned std E passkey_count s
      → IsManned std E passkey_count (after_request r s)
  unfolding after_request
  request-IsManned (creates env body) s h = create_user_handler-IsManned env body s h
  request-IsManned (updates env param body) s h = update_handler-IsManned env param body s h
  request-IsManned (deletes env param) s h = delete_handler-IsManned env param s h

  -- From a store in which every user stands under its own email and some admin is enabled, any
  -- requests to create, update and delete users, one after the other, with any answers of bcrypt
  -- and of the commits, lead to such a store.
  pub after_requests-IsManned :
      (rs : List Request) (s : UserStore std E)
      → IsManned std E passkey_count s
      → IsManned std E passkey_count (after_requests rs s)
  unfolding after_requests
  after_requests-IsManned [] s h = h
  after_requests-IsManned (r ∷ rest) s h =
      after_requests-IsManned rest (after_request r s) (request-IsManned r s h)
