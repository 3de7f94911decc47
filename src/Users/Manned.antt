-- ===== src/Users/Manned.antt =====
-- The steps of the admin API (internal/domain/users/handler.go) that the lockout guard protects.
use secret_share.Users.Handler.{
  set_credentials, save_user, with_password, apply_update, finish_update,
}
use secret_share.Users.Fields.{
  other_enabled_admins, UpdateReq, update_name, update_enabled, clear_totp_of, clear_passkeys_of,
  guard_lockout, bad_length, update_role, UserEnv,
}
use secret_share.Users.Store.{get_user, UserStore, upsert}
use secret_share.Users.Lockout.{
  IsSafe, HasOther, upsert-HasAdmin, upsert-IsKeyed, other_admin, IsSafe-same, IsKeyed, HasAdmin,
}
use secret_share.User.{
  set_password, normalize_email, is_enabled_admin, source_local, User, normalize_email_idem,
}
use secret_share.Std.{Std}
use secret_share.Prelude.{
  Option, ◌&&◌, none, refl, Bool, ◌∙◌, some, true, ℕ, ◌≡◌, inr, sym, inl, String, not, false, ◌==◌,
  ap, arith, eq_iff, ◌⊎◌, if◌then◌else◌, eqb, Bool-cases, Option-cases,
}
use secret_share.Http.{Reply, Value}
use secret_share.Bolt.{Engine, raw_at, json}
use secret_share.Users.Laws.{get_user_lem}
use mathlib.Core.Path.{subst}

-- What Update revokes leaves the email and the standing of the user.
clear_keeps :
    (a b : Option Bool) (p : User)
    → ((clear_passkeys_of a (clear_totp_of b p)).email ≡ p.email)
      × (is_enabled_admin (clear_passkeys_of a (clear_totp_of b p)) ≡ is_enabled_admin p)
unfolding clear_passkeys_of clear_totp_of is_enabled_admin
clear_keeps a b p = ground arith

pub update_keeps :
    (std : Std) (req : UpdateReq) (p named : User)
    → update_role std req.role (update_name std.trim_space req.name p) ≡ some named
    → (update_enabled req.enabled named).email ≡ p.email
unfolding update_role update_name update_enabled
update_keeps std req p named e = ground arith

module _ (std : Std) (E : Engine) (passkey_count : String → Option ℕ) where
  -- What every request keeps.
  pub record IsManned (s : UserStore std E) : Type 0 where
    pub keyed : IsKeyed std E s
    pub admin : HasAdmin std E s

  abbrev IsDue : User → UserStore std E → Type 0
  IsDue p s = IsManned s × IsSafe std E p s

  pub save_user-IsManned :
      (code : ℕ) (env : UserEnv) (p : User) (s : UserStore std E)
      → IsDue p s
      → IsManned (save_user std E passkey_count code env p s).2
  unfolding save_user
  save_user-IsManned code env p s (h, safe) =
      let same : (save_user std E passkey_count code env p s).2
          ≡ (upsert std E env.save env.now p s).2 =
        ground arith in
      subst IsManned (sym same) (record {
        keyed = upsert-IsKeyed std E env.save env.now p s h.keyed;
        admin = upsert-HasAdmin std E env.save env.now p s h.admin safe;
      })

  finish_update-IsManned :
      (env : UserEnv) (req : UpdateReq) (p : User) (s : UserStore std E)
      → IsDue p s
      → IsManned (finish_update std E passkey_count env req p s).2
  unfolding finish_update
  finish_update-IsManned env req p s (h, safe) =
      let q = clear_passkeys_of req.clear_passkeys (clear_totp_of req.clear_totp p) in
      let (mail, standing) = clear_keeps req.clear_passkeys req.clear_totp p in
      save_user-IsManned 200 env q s (h, IsSafe-same std E p q s mail standing safe)

  with_password-IsManned :
      (env : UserEnv) (req : UpdateReq) (p : Option User) (s : UserStore std E)
      → IsManned s
      → ((q : User) → p ≡ some q → IsSafe std E q s)
      → IsManned (with_password std E passkey_count env req p s).2
  unfolding with_password is_enabled_admin
  with_password-IsManned env req none s h safe = h
  with_password-IsManned env req (some p) s h safe =
      let q = if p.source == "" then record p { source = source_local } else p in
      let same : (q.email ≡ p.email) × (is_enabled_admin q ≡ is_enabled_admin p) = ground arith in
      finish_update-IsManned env req q s (h, IsSafe-same std E p q s same.0 same.1 (safe p refl))

  abbrev cleared : User → User
  cleared p = record p { password_hash = "" }

  hashed :
      (h : Option String) (p : User) (s : UserStore std E)
      → IsSafe std E p s
      → (q : User) → set_password h p ≡ some q
      → IsSafe std E q s
  unfolding set_password is_enabled_admin
  hashed none p s safe q e = cc
  hashed (some c) p s safe q e = IsSafe-same std E p q s (ground arith) (ground arith) safe

  set_credentials-IsManned :
      (env : UserEnv) (req : UpdateReq) (pw : Option String) (p : User) (s : UserStore std E)
      → IsDue p s
      → IsManned (set_credentials std E passkey_count env req pw p s).2
  unfolding set_credentials
  set_credentials-IsManned env req none p s due = finish_update-IsManned env req p s due
  set_credentials-IsManned env req (some pw) p s (h, safe) = elim (Bool-cases (pw == "")) [
    | inl blank ↦ rw blank (
        finish_update-IsManned env req (cleared p) s
          (h, IsSafe-same std E p (cleared p) s refl (unfold is_enabled_admin in refl) safe))
    | inr filled ↦ rw filled (elim (Bool-cases (bad_length pw)) [
      | inl long ↦ rw long h
      | inr fits ↦
          rw fits (
            with_password-IsManned env req (set_password env.hash p) s h (hashed env.hash p s safe))
    ])
  ]

  pub guard_lockout-IsManned :
      (msg : Value) (leaves : Bool) (email : String) (s : UserStore std E)
      (rest : Reply (UserStore std E))
      → IsManned s
      → ((leaves ≡ false) ⊎ HasOther std E email s → IsManned rest.2)
      → IsManned (guard_lockout std E msg leaves email s rest).2
  unfolding guard_lockout
  guard_lockout-IsManned msg false email s rest h go = go (inl refl)
  guard_lockout-IsManned msg true email s rest h go =
      elim (Option-cases (other_enabled_admins std E email s).1) [
        | inr (e, failed) ↦ rw failed h
        | inl fine ↦ rw fine (elim (Bool-cases (eqb (other_enabled_admins std E email s).0 0)) [
          | inl alone ↦ rw alone h
          | inr others ↦
              rw others (go (inr (other_admin std E email s h.keyed fine (ground arith))))
        ])
      ]

  -- After the guard, what replaces the user keeps an enabled admin.
  IsSafe-of_guard :
      (p next : User) (s : UserStore std E)
      → IsManned s
      → raw_at E s p.email ≡ some (json p)
      → normalize_email std p.email ≡ p.email
      → next.email ≡ p.email
      → ((is_enabled_admin p && not (is_enabled_admin next)) ≡ false) ⊎ HasOther std E p.email s
      → IsSafe std E next s
  IsSafe-of_guard p next s h at normal mail (inr (k, u, there, passes, other)) =
      inr (k, u, there, passes, ap (λ e. e == k) (ap (normalize_email std) mail ∙ normal) ∙ other)
  IsSafe-of_guard p next s h at normal mail (inl stays) =
      elim (Bool-cases (is_enabled_admin next)) [
        | inl admin ↦ inl admin
        | inr plain ↦
            let (k, u, there, passes) = h.admin in
            inr (
              k,
              u,
              there,
              passes,
              ground
                  (arith, ap (normalize_email std) mail, eq_iff (normalize_email std next.email) k),
            )
      ]

  -- The user that a lookup finds stands under its own email, which is normal.
  abbrev pub IsKept : User → UserStore std E → Type 0
  IsKept p s = (raw_at E s p.email ≡ some (json p)) × (normalize_email std p.email ≡ p.email)

  pub found_keyed :
      (email : String) (p : User) (s : UserStore std E)
      → IsManned s
      → (get_user std E (normalize_email std email) s).0 ≡ some p
      → IsKept p s × (p.email ≡ normalize_email std email)
  found_keyed email p s h e =
      let n = normalize_email std email in
      let at : raw_at E s n ≡ some (json p) =
        ground (arith, get_user_lem std E n s, normalize_email_idem std email) in
      let same : p.email ≡ n = h.keyed.at n p at in
      (
        (
          ap (raw_at E s) same ∙ at,
          ap (normalize_email std) same ∙ normalize_email_idem std email ∙ sym same,
        ),
        same,
      )

  pub apply_update-IsManned :
      (env : UserEnv) (req : UpdateReq) (p next : User) (s : UserStore std E)
      → IsManned s
      → raw_at E s p.email ≡ some (json p)
      → normalize_email std p.email ≡ p.email
      → next.email ≡ p.email
      → IsManned (apply_update std E passkey_count env req p next s).2
  unfolding apply_update
  apply_update-IsManned env req p next s h at normal mail =
      guard_lockout-IsManned _ _ p.email s
        (set_credentials std E passkey_count env req req.password next s) h
        (λ g.
          set_credentials-IsManned env req req.password next s
            (h, IsSafe-of_guard p next s h at normal mail g))
