-- ===== src/Secrets/Burn.antt =====
-- What the operations of the store of secrets (internal/domain/secrets/store.go) do to the bytes
-- under each id. A store that fails, or whose commit fails, is left as it was.
use secret_share.Prelude.{
  String, ◌≡◌, refl, false, Option, none, some, arith, ◌==◌, eq_iff, if◌then◌else◌,
}
use secret_share.Bolt.{Engine, json, Error, closed, opened, raw_at}
use secret_share.Bolt.Laws.{delete_at, put_at}
use secret_share.Secret.{Secret}
use secret_share.Secrets.Store.{read_bytes, Store, Bytes, create, get_meta, get_and_burn, remove}

-- What an operation leaves under an id: `new` if it answered no error, and `old` otherwise.
abbrev pub committed : {A : Type 0} → Option Error → A → A → A
committed none new old = new
committed (some e) new old = old

module _ (E : Engine) where
  -- A burn answers what the peek answers, or the error of the commit. Without an error the id is
  -- then absent; with one, and at every other id, the bytes are what they were.
  pub get_and_burn_lem :
      (commit : Option Error) (id j : String) (s : Store E)
      → let r = get_and_burn E commit id s in
        (r.0 ≡ (read_bytes (raw_at E s id)).0)
        × (commit ≡ none → r.1 ≡ (read_bytes (raw_at E s id)).1)
        × (raw_at E r.2 j ≡ committed r.1 (if id == j then none else raw_at E s j) (raw_at E s j))
  unfolding get_and_burn get_meta raw_at
  get_and_burn_lem commit id j closed = ground arith
  get_and_burn_lem commit id j (opened none) = ground arith
  get_and_burn_lem commit id j (opened (some b)) = ground (arith, delete_at E b id j, eq_iff id j)

  -- A peek reads the bytes under the id.
  pub get_meta_lem : (id : String) (s : Store E) → get_meta E id s ≡ read_bytes (raw_at E s id)
  unfolding get_meta raw_at
  get_meta_lem id closed = refl
  get_meta_lem id (opened none) = refl
  get_meta_lem id (opened (some b)) = refl

  pub remove_lem :
      (commit : Option Error) (id j : String) (s : Store E)
      → let r = remove E commit id s in
        (raw_at E r.2 j ≡ committed r.1 (if id == j then none else raw_at E s j) (raw_at E s j))
        × (commit ≡ none → raw_at E r.2 j ≡ (if id == j then none else raw_at E s j))
  unfolding remove raw_at
  remove_lem commit id j closed = ground arith
  remove_lem commit id j (opened none) = ground arith
  remove_lem commit id j (opened (some b)) = ground (arith, delete_at E b id j)

  -- A create that answers no error had a secret with an id under which nothing stood.
  pub create_lem :
      (commit : Option Error) (sec : Secret) (j : String) (s : Store E)
      → let r = create E commit (some sec) s in
        (raw_at E r.2 j
          ≡ committed r.1 (if sec.id == j then some (json sec) else raw_at E s j) (raw_at E s j))
        × (r.1 ≡ none → (raw_at E s sec.id ≡ none) × ((sec.id == "") ≡ false))
  unfolding create raw_at
  create_lem commit sec j closed = ground arith
  create_lem commit sec j (opened none) =
      ground (arith, put_at E (E.empty Bytes) sec.id j (json sec), E.get-empty Bytes j)
  create_lem commit sec j (opened (some b)) = ground (arith, put_at E b sec.id j (json sec))
