-- ===== src/Server/Access.antt =====
-- Who passes the gates of internal/server/middleware.go.
use secret_share.Visibility.Marks.{read_private-cases}
use secret_share.Http.{internal, unauthorized}
use secret_share.Config.{AuthConfig}
use secret_share.Visibility.Store.{is_private}
use secret_share.Users.Store.{UserStore, UserBytes}
use secret_share.Users.Laws.{get_user_lem}
use secret_share.User.{normalize_email, User}
use secret_share.Std.{Std}
use secret_share.Session.{Claims, from_ctx, Codec}
use secret_share.Server.World.{Handler, World, Caller}
use secret_share.Server.Middleware.{verify_session, with_session, reveal_gate}
use secret_share.Prelude.{
  ◌∙◌, ap, ◌&&◌, if◌then◌else◌, false, Bool-cases, eqb, inl, none, inr, some, Bool, ◌||◌, arith,
  ◌==◌, ◌≡◌, true, refl, Option, ◌⊎◌, String, Option-cases,
}
use secret_share.Bolt.{json, junk, raw_at, Engine}

module _ (std : Std) (E : Engine) (codec : Codec) (cfg : AuthConfig) where
  -- A good session: a cookie with claims, of a user that is stored and enabled.
  pub record HasSession (caller : Caller) (users : UserStore std E) : Type 0 where
    pub claims : Claims
    pub user : User
    pub cookie : from_ctx codec caller.seconds caller.cookie cfg.session_secret ≡ some claims
    pub stored : raw_at E users (normalize_email std claims.email) ≡ some (json user)
    pub enabled : user.enabled ≡ true

  -- The gate stands before this id: every reveal is gated, or this one is private.
  abbrev pub guarded : String → World std E → Bool
  guarded id w = cfg.gate == "all" || is_private E id w.visibility

  -- The claims that a session resolves to have the role of the stored user.
  pub verify_session_sound :
      (caller : Caller) (users : UserStore std E) (c : Claims)
      → (verify_session std E codec cfg caller users).0 ≡ some c
      → (s : HasSession caller users) × (c.role ≡ s.user.role)
  unfolding verify_session
  verify_session_sound caller users c h =
      elim (Option-cases (from_ctx codec caller.seconds caller.cookie cfg.session_secret)) [
        | inl no_cookie ↦ absurd (ground arith)
        | inr (claims, cookie) ↦
            user claims cookie (raw_at E users (normalize_email std claims.email)) refl
      ]
    where
      user :
          (claims : Claims)
          → from_ctx codec caller.seconds caller.cookie cfg.session_secret ≡ some claims
          → (raw : Option UserBytes) → raw_at E users (normalize_email std claims.email) ≡ raw
          → (s : HasSession caller users) × (c.role ≡ s.user.role)
      user claims cookie none e = absurd (ground (arith, get_user_lem std E claims.email users))
      user claims cookie (some junk) e =
          absurd (ground (arith, get_user_lem std E claims.email users))
      user claims cookie (some (json u)) e = (
        record {
          claims = claims;
          user = u;
          cookie = cookie;
          stored = e;
          enabled = ground (arith, get_user_lem std E claims.email users);
        },
        ground (arith, get_user_lem std E claims.email users),
      )

  -- The gate without a failed look at the marks.
  abbrev plain_gate : Caller → String → Handler std E → Handler std E
  plain_gate caller id next w =
      if cfg.enabled
      then (if guarded id w then with_session std E codec cfg caller (λ _. next) w else next w)
      else next w

  reveal_gate_read :
      (caller : Caller) (id : String) (next : Handler std E) (w : World std E)
      → let r = reveal_gate std E codec cfg caller id next w in
        (r ≡ plain_gate caller id next w) ⊎ (r ≡ internal w)
  unfolding reveal_gate
  reveal_gate_read caller id next w = elim (read_private-cases E caller.view id w.visibility) [
    | inl read ↦ elim (Bool-cases (cfg.gate == "all")) [
      | inl always ↦ inl (ground arith)
      | inr perhaps ↦ inl (ground (arith, read))
    ]
    | inr (e, broken) ↦ elim (Bool-cases cfg.enabled) [
      | inr off ↦ inl (ground arith)
      | inl on ↦ elim (Bool-cases (cfg.gate == "all")) [
        | inl always ↦ inl (ground arith)
        | inr perhaps ↦ inr (ground (arith, broken))
      ]
    ]
  ]

  -- A session lets the handler run; without one the answer is 401, or 500 where the lookup fails.
  with_session_cases :
      (caller : Caller) (next : Handler std E) (w : World std E)
      → let r = with_session std E codec cfg caller (λ _. next) w in
        (HasSession caller w.users × (r ≡ next w)) ⊎ (r ≡ unauthorized "" w) ⊎ (r ≡ internal w)
  unfolding with_session
  with_session_cases caller next w =
      elim (Option-cases (verify_session std E codec cfg caller w.users).1) [
        | inr (e, broken) ↦ inr (inr (ground arith))
        | inl fine ↦ elim (Option-cases (verify_session std E codec cfg caller w.users).0) [
          | inl denied ↦ inr (inl (ground arith))
          | inr (c, known) ↦ inl ((verify_session_sound caller w.users c known).0, ground arith)
        ]
      ]

  -- Where auth is on and the id is guarded, the gate runs its handler only in a good session; else
  -- it answers 401, or 500 where a read fails.
  pub reveal_gate-guarded :
      (caller : Caller) (id : String) (next : Handler std E) (w : World std E)
      → cfg.enabled ≡ true
      → guarded id w ≡ true
      → let r = reveal_gate std E codec cfg caller id next w in
        (HasSession caller w.users × (r ≡ next w)) ⊎ (r ≡ unauthorized "" w) ⊎ (r ≡ internal w)
  reveal_gate-guarded caller id next w on g = elim (reveal_gate_read caller id next w) [
    | inr broken ↦ inr (inr broken)
    | inl plainly ↦
        let same : reveal_gate std E codec cfg caller id next w
            ≡ with_session std E codec cfg caller (λ _. next) w =
          ground (arith, plainly) in
        elim (with_session_cases caller next w) [
          | inl (session, runs) ↦ inl (session, same ∙ runs)
          | inr (inl denied) ↦ inr (inl (same ∙ denied))
          | inr (inr broken) ↦ inr (inr (same ∙ broken))
        ]
  ]

  -- Where auth is on and the id is guarded, the handler behind the gate runs only for a caller with
  -- a good session; any other is answered 401 or 500, with nothing changed.
  pub reveal_gate_lem :
      (caller : Caller) (id : String) (next : Handler std E) (w : World std E)
      → cfg.enabled ≡ true
      → guarded id w ≡ true
      → let r = reveal_gate std E codec cfg caller id next w in
        (HasSession caller w.users × (r ≡ next w))
        ⊎ (((r.1.status ≡ 401) ⊎ (r.1.status ≡ 500)) × (r.2 ≡ w))
  reveal_gate_lem caller id next w on g = elim (reveal_gate-guarded caller id next w on g) [
    | inl runs ↦ inl runs
    | inr (inl denied) ↦ inr (inl (ap (λ r. r.1.status) denied), ap (λ r. r.2) denied)
    | inr (inr broken) ↦ inr (inr (ap (λ r. r.1.status) broken), ap (λ r. r.2) broken)
  ]

  -- Whatever the settings, the handler behind the gate runs, or the answer is no success and
  -- nothing has changed.
  pub reveal_gate_cases :
      (caller : Caller) (id : String) (next : Handler std E) (w : World std E)
      → let r = reveal_gate std E codec cfg caller id next w in
        (r ≡ next w) ⊎ ((eqb r.1.status 200 ≡ false) × (r.2 ≡ w))
  reveal_gate_cases caller id next w = elim (Bool-cases (cfg.enabled && guarded id w)) [
    | inl shut ↦ elim (reveal_gate-guarded caller id next w (ground arith) (ground arith)) [
      | inl (session, runs) ↦ inl runs
      | inr (inl denied) ↦ inr (ap (λ r. eqb r.1.status 200) denied, ap (λ r. r.2) denied)
      | inr (inr broken) ↦ inr (ap (λ r. eqb r.1.status 200) broken, ap (λ r. r.2) broken)
    ]
    | inr open_to_all ↦ elim (reveal_gate_read caller id next w) [
      | inl plainly ↦ inl (ground (arith, plainly))
      | inr broken ↦ inr (ap (λ r. eqb r.1.status 200) broken, ap (λ r. r.2) broken)
    ]
  ]
