-- ===== src/Users/Laws.antt =====
-- What the operations of the store of users (internal/domain/users/store.go) do to the record
-- under each key.
use secret_share.Users.Store.{
  delete_user, UserBytes, UserStore, stamp, upsert, read_user, get_user, key,
}
use secret_share.User.{normalize_email, User, normalize_email_idem}
use secret_share.Std.{Std}
use secret_share.Secrets.Burn.{committed}
use secret_share.Secret.{Time}
use secret_share.Prelude.{
  inr, inl, Option-cases, refl, some, String, arith, ◌≡◌, ◌==◌, none, Option, if◌then◌else◌,
}
use secret_share.Bolt.Laws.{delete_at, raw_at-or_empty, put_at}
use secret_share.Bolt.{or_empty, opened, Error, raw_at, Engine, json, closed}

-- A stamp leaves the email.
pub stamp_email : (now : Time) (o : Option UserBytes) (p : User) → (stamp now o p).email ≡ p.email
unfolding stamp
stamp_email now o p = refl

module _ (std : Std) (E : Engine) where
  pub get_user_lem :
      (email : String) (s : UserStore std E)
      → get_user std E email s ≡ read_user (raw_at E s (normalize_email std email))
  unfolding get_user raw_at key
  get_user_lem email closed = refl
  get_user_lem email (opened none) = refl
  get_user_lem email (opened (some b)) = refl

  -- What `upsert_lem` says, of the bucket that the transaction works on.
  upsert_at :
      (commit : Option Error) (now : Time) (p : User) (j : String) (o : Option (E.Bucket UserBytes))
      (b : E.Bucket UserBytes)
      → or_empty E o ≡ b
      → let r = upsert std E commit now p (opened o) in
        let k = normalize_email std p.email in
        (raw_at E r.2 j
          ≡ committed r.1
              (if k == j then some (json r.0) else raw_at E (opened o) j)
              (raw_at E (opened o) j))
        × (r.1 ≡ none → r.0 ≡ stamp now (raw_at E (opened o) k) (record p { email = k }))
  unfolding upsert key raw_at
  upsert_at commit now p j o b e =
      let k = normalize_email std p.email in
      let p' : User = stamp now (E.get b k) (record p { email = k }) in
      ground (
        arith,
        put_at E b k j (json p'),
        raw_at-or_empty E o j,
        raw_at-or_empty E o k,
        normalize_email_idem std p.email,
        stamp_email now (E.get b k) (record p { email = k }),
      )

  -- An upsert that answers no error holds the stamped user under the normal form of its email, and
  -- leaves all else; one with an error changes nothing.
  pub upsert_lem :
      (commit : Option Error) (now : Time) (p : User) (j : String) (s : UserStore std E)
      → let r = upsert std E commit now p s in
        let k = normalize_email std p.email in
        (raw_at E r.2 j
          ≡ committed r.1 (if k == j then some (json r.0) else raw_at E s j) (raw_at E s j))
        × (r.1 ≡ none → r.0 ≡ stamp now (raw_at E s k) (record p { email = k }))
  unfolding upsert raw_at key
  upsert_lem commit now p j closed = ground arith
  upsert_lem commit now p j (opened none) = upsert_at commit now p j none (E.empty UserBytes) refl
  upsert_lem commit now p j (opened (some b)) = upsert_at commit now p j (some b) b refl

  pub delete_user_lem :
      (commit : Option Error) (email j : String) (s : UserStore std E)
      → let r = delete_user std E commit email s in
        raw_at E r.2 j
        ≡ committed r.1
            (if normalize_email std email == j then none else raw_at E s j)
            (raw_at E s j)
  unfolding delete_user raw_at key
  delete_user_lem commit email j closed = ground arith
  delete_user_lem commit email j (opened none) = ground arith
  delete_user_lem commit email j (opened (some b)) =
      ground (arith, delete_at E b (normalize_email std email) j)

  -- After an upsert without an error, the lookup of an email with the same normal form finds the
  -- user under that form, stamped with the time, and with the creation time of the user that
  -- stood there; the lookup of any other email finds what it found before.
  pub get_user-upsert :
      (commit : Option Error) (now : Time) (p : User) (email : String) (s : UserStore std E)
      → (upsert std E commit now p s).1 ≡ none
      → let k = normalize_email std p.email in
        get_user std E email (upsert std E commit now p s).2 ≡ (
          if k == normalize_email std email
          then (some (stamp now (raw_at E s k) (record p { email = k })), none)
          else get_user std E email s)
  get_user-upsert commit now p email s fine =
      let n = normalize_email std email in
      ground (
        arith,
        upsert_lem commit now p n s,
        get_user_lem email s,
        get_user_lem email (upsert std E commit now p s).2,
      )

  -- After a delete without an error, the lookup of an email with the same normal form finds no
  -- user, and that of any other finds what it found before.
  pub get_user-delete_user :
      (commit : Option Error) (removed email : String) (s : UserStore std E)
      → (delete_user std E commit removed s).1 ≡ none
      → get_user std E email (delete_user std E commit removed s).2 ≡ (
          if normalize_email std removed == normalize_email std email
          then (none, none)
          else get_user std E email s)
  get_user-delete_user commit removed email s fine =
      let n = normalize_email std email in
      ground (
        arith,
        delete_user_lem commit removed n s,
        get_user_lem email s,
        get_user_lem email (delete_user std E commit removed s).2,
      )

  -- A delete whose commit passes answers no error on a store that holds something.
  pub delete_user_done :
      (email k : String) (v : UserBytes) (s : UserStore std E)
      → raw_at E s k ≡ some v
      → (delete_user std E none email s).1 ≡ none
  unfolding delete_user raw_at key
  delete_user_done email k v closed h = cc
  delete_user_done email k v (opened none) h = cc
  delete_user_done email k v (opened (some b)) h =
      ground (arith, delete_at E b (normalize_email std email) k)

  -- The user that an upsert changes in place keeps its email, up to its normal form, its name and
  -- its role.
  pub upsert_keeps :
      (commit : Option Error) (now : Time) (p : User) (s : UserStore std E)
      → let q = (upsert std E commit now p s).0 in
        (normalize_email std q.email ≡ normalize_email std p.email)
        × (q.name ≡ p.name)
        × (q.role ≡ p.role)
  unfolding upsert stamp
  upsert_keeps commit now p closed = (refl, refl, refl)
  upsert_keeps commit now p (opened b) =
      let k = normalize_email std p.email in
      let bucket = or_empty E b in
      let p' : User = stamp now (E.get bucket (key std E k)) (record p { email = k }) in
      let mail = normalize_email_idem std p.email in
      elim (Option-cases (E.put bucket (key std E k) (json p'))) [
        | inl full ↦ (ground (arith, mail), ground arith, ground arith)
        | inr (b', wrote) ↦ elim (Option-cases commit) [
          | inl good ↦ (ground (arith, mail), ground arith, ground arith)
          | inr (e, bad) ↦ (ground (arith, mail), ground arith, ground arith)
        ]
      ]
