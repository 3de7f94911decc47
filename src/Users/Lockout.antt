-- ===== src/Users/Lockout.antt =====
-- The lockout guard of internal/domain/users/handler.go: what it counts, and what a write keeps.
use secret_share.Users.Fields.{other_enabled_admins}
use secret_share.Users.Store.{
  list_users, key, stamp, UserStore, delete_user, upsert, collect, UserBytes,
}
use secret_share.Users.Laws.{upsert_lem, stamp_email, delete_user_lem}
use secret_share.User.{User, is_enabled_admin, normalize_email}
use secret_share.Std.{Std}
use secret_share.Secret.{Time}
use secret_share.Prelude.{
  ap, not, false, ◌∙◌, ◌⊎◌, ◌==◌, ◌&&◌, Option-cases, List, eq_refl, String, [], Bool, ◌∷◌, ◌≡◌,
  none, eq_iff, true, Option, arith, some, ◌<◌, inl, inr, HasDistinctKeys, lookup, count_if,
  Bool-cases,
}
use secret_share.Bolt.{closed, opened, done, Error, raw_at, json, Engine, junk}

module _ (std : Std) (E : Engine) where
  -- Every user stands under its own email: the invariant of the bucket.
  pub record IsKeyed (s : UserStore std E) : Type 0 where
    pub at : (k : String) (u : User) → raw_at E s k ≡ some (json u) → u.email ≡ k

  -- Some enabled admin is stored.
  abbrev pub HasAdmin : UserStore std E → Type 0
  HasAdmin s =
      (k : String) × (u : User) × (raw_at E s k ≡ some (json u)) × (is_enabled_admin u ≡ true)

  pub upsert-IsKeyed :
      (commit : Option Error) (now : Time) (p : User) (s : UserStore std E)
      → IsKeyed s
      → IsKeyed (upsert std E commit now p s).2
  upsert-IsKeyed commit now p s h = record {
    at = λ k u e. ground (
      arith,
      upsert_lem std E commit now p k s,
      stamp_email now (raw_at E s (normalize_email std p.email))
          (record p { email = normalize_email std p.email }),
      eq_iff (normalize_email std p.email) k,
      h.at k u,
    );
  }

  pub delete_user-IsKeyed :
      (commit : Option Error) (email : String) (s : UserStore std E)
      → IsKeyed s
      → IsKeyed (delete_user std E commit email s).2
  delete_user-IsKeyed commit email s h = record {
    at = λ k u e. ground (arith, delete_user_lem std E commit email k s, h.at k u);
  }

  -- A user that a test counts among the collected ones stands under some key.
  found_of_count :
      (f : User → Bool) (l : List (String × UserBytes))
      → HasDistinctKeys l
      → (collect l).1 ≡ none
      → 0 < count_if f (collect l).0
      → (k : String) × (u : User) × (lookup k l ≡ some (json u)) × (f u ≡ true)
  unfolding collect
  found_of_count f [] d e h = absurd (omega arith)
  found_of_count f ((k, junk) ∷ rest) d e h = cc
  found_of_count f ((k, json p) ∷ rest) d e h = elim (Bool-cases (f p)) [
    | inl this ↦ (k, p, ground (arith, eq_refl k), this)
    | inr other ↦
        let (k', u, at, passes) = found_of_count f rest d.1 e (ground arith) in
        (k', u, ground (arith, eq_iff k k'), passes)
  ]

  -- An enabled admin stands under a key other than the given one.
  abbrev pub HasOther : String → UserStore std E → Type 0
  HasOther key s =
      (k : String) × (u : User) × (raw_at E s k ≡ some (json u))
      × (is_enabled_admin u ≡ true)
      × ((key == k) ≡ false)

  -- Where the guard counts another enabled admin, there is one.
  pub other_admin :
      (email : String) (s : UserStore std E)
      → IsKeyed s
      → (other_enabled_admins std E email s).1 ≡ none
      → 0 < (other_enabled_admins std E email s).0
      → HasOther email s
  unfolding other_enabled_admins list_users raw_at
  other_admin email closed h e n = absurd (omega arith)
  other_admin email (opened none) h e n = absurd (omega arith)
  other_admin email (opened (some b)) h e n =
      let counts = λ (p : User). not (p.email == email) && is_enabled_admin p in
      let (k, u, at, passes) =
        found_of_count counts (E.entries b) (E.entries-HasDistinctKeys b) (ground arith)
          (ground arith) in
      let there : E.get b k ≡ some (json u) = E.get-entries b k ∙ at in
      (k, u, there, ground arith, ground (arith, h.at k u, eq_iff email k, eq_iff u.email email))

  -- The store keeps an enabled admin when this user is written.
  abbrev pub IsSafe : User → UserStore std E → Type 0
  IsSafe p s = (is_enabled_admin p ≡ true) ⊎ HasOther (normalize_email std p.email) s

  -- Only the email and the standing of the user matter.
  pub IsSafe-same :
      (p q : User) (s : UserStore std E)
      → q.email ≡ p.email
      → is_enabled_admin q ≡ is_enabled_admin p
      → IsSafe p s
      → IsSafe q s
  IsSafe-same p q s mail standing (inl admin) = inl (standing ∙ admin)
  IsSafe-same p q s mail standing (inr (k, u, at, passes, other)) =
      inr (k, u, at, passes, ap (λ e. normalize_email std e == k) mail ∙ other)

  pub upsert-HasAdmin :
      (commit : Option Error) (now : Time) (p : User) (s : UserStore std E)
      → HasAdmin s
      → IsSafe p s
      → HasAdmin (upsert std E commit now p s).2
  upsert-HasAdmin commit now p s h safe = elim (Option-cases (upsert std E commit now p s).1) [
    | inl done ↦ elim safe [
      | inl admin ↦ (
        normalize_email std p.email,
        (upsert std E commit now p s).0,
        ground (
          arith,
          upsert_lem std E commit now p (normalize_email std p.email) s,
          eq_refl (normalize_email std p.email),
        ),
        unfold is_enabled_admin stamp in
            ground (arith, upsert_lem std E commit now p (normalize_email std p.email) s),
      )
      | inr other ↦
          (other.0, other.1, ground (arith, upsert_lem std E commit now p other.0 s), other.3)
    ]
    | inr failed ↦ (h.0, h.1, ground (arith, upsert_lem std E commit now p h.0 s), h.3)
  ]
