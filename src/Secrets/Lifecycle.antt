-- ===== src/Secrets/Lifecycle.antt =====
-- The life of a secret through its handlers (internal/domain/secrets/handler.go): created, peeked
-- at, revealed once, and gone.
use secret_share.Secrets.Burn.{get_and_burn_lem, get_meta_lem, remove_lem}
use secret_share.Std.{Std}
use secret_share.Secrets.Store.{Bytes, Store}
use secret_share.Secrets.Handler.{meta_handler, reveal_handler, Env, settled, resolve_ttl}
use secret_share.Secret.{Time, is_expired, Secret}
use secret_share.Prelude.{
  eq_refl, eq_iff, refl, List, Option, ℕ, ◌==◌, Bool, if◌then◌else◌, [], ◌⊎◌, none, some, ◌≡◌, true,
  false, arith, ◌∷◌, String, ltb_ℤ, pos, leb_ℤ, ℤ,
}
use secret_share.Http.{flag, Value, int, obj, text, Response}
use secret_share.Config.{default_ttl_duration, max_ttl_duration, SecretsConfig}
use secret_share.Bolt.{junk, raw_at, Engine, json}

module _ (std : Std) (cfg : SecretsConfig) where
  -- A lifetime that is accepted is positive. It is the default one for a blank request, and else
  -- at most the maximum.
  pub resolve_ttl_bounds :
      (raw : String) (d : ℤ)
      → resolve_ttl std cfg raw ≡ settled d
      → (ltb_ℤ (pos 0) d ≡ true)
        × ((d ≡ default_ttl_duration std cfg) ⊎ (leb_ℤ d (max_ttl_duration std cfg) ≡ true))
  unfolding resolve_ttl default_ttl_duration
  resolve_ttl_bounds raw d h = ground arith

-- What a reveal and a peek at some time find under an id.
pub data Found : Type 0 where
  absent corrupt : Found
  expired live : Secret → Found

unfoldable pub classify : Time → Option Bytes → Found
classify now none = absent
classify now (some junk) = corrupt
classify now (some (json sec)) = if is_expired sec now then expired sec else live sec

abbrev pub answer : ℕ → List (String × Value) → Response
answer code m = record { status = code; body = obj m }

abbrev pub gone : Response
gone = answer 404 (("error", text "secret not found or already viewed") ∷ [])

abbrev pub failed : Response
failed = answer 500 (("error", text "internal error") ∷ [])

-- The contract of a reveal: its answer, and whether the secret is still there afterwards.
unfoldable pub reveal_spec : Found → Response × Bool
reveal_spec absent = (gone, true)
reveal_spec corrupt = (failed, true)
reveal_spec (expired sec) = (gone, false)
reveal_spec (live sec) = (answer 200 (("ciphertext", text sec.ciphertext) ∷ []), false)

-- The contract of a peek.
unfoldable pub meta_spec : Found → Response × Bool
meta_spec absent = (answer 200 (("exists", flag false) ∷ []), true)
meta_spec corrupt = (failed, true)
meta_spec (expired sec) = (answer 200 (("exists", flag false) ∷ []), false)
meta_spec (live sec) =
    (answer 200 (("exists", flag true) ∷ ("size", int (pos sec.size)) ∷ []), true)

-- The bytes at `j` after an operation on `id` that keeps or drops what it found.
abbrev pub kept : Bool → String → String → Option Bytes → Option Bytes
kept keeps id j old = if keeps then old else if id == j then none else old

module _ (std : Std) (E : Engine) (cfg : SecretsConfig) where
  module _ (env : Env) (id j : String) (s : Store E) where
    -- Where no commit fails, a reveal meets its contract: it answers the ciphertext exactly of a
    -- record that has not expired, which is gone afterwards; it drops an expired one, and leaves
    -- all else as it was.
    pub reveal-refines :
        env.burn ≡ none
        → env.reap ≡ none
        → let r = reveal_handler std E cfg env id s in
          let c = reveal_spec (classify env.now (raw_at E s id)) in
          (r.1 ≡ c.0) × (raw_at E r.2 j ≡ kept c.1 id j (raw_at E s j))
    unfolding reveal_handler reveal_spec classify
    reveal-refines burn reap = ground (
      arith,
      get_meta_lem E id s,
      get_and_burn_lem E env.burn id j s,
      remove_lem E env.reap id j s,
      eq_iff id j,
    )

    -- Where the commit of a lazy delete does not fail, a peek meets its contract: it burns no
    -- secret that can still be revealed, and a missing and an expired one read the same.
    pub meta-refines :
        env.reap ≡ none
        → let r = meta_handler std E cfg env id s in
          let c = meta_spec (classify env.now (raw_at E s id)) in
          (r.1 ≡ c.0) × (raw_at E r.2 j ≡ kept c.1 id j (raw_at E s j))
    unfolding meta_handler meta_spec classify
    meta-refines reap =
        ground (arith, get_meta_lem E id s, remove_lem E env.reap id j s, eq_iff id j)

    -- Whatever the commits answer, a reveal that answers 200 has burnt a secret that had not
    -- expired, and gives its ciphertext.
    pub reveal_sound :
        (reveal_handler std E cfg env id s).1.status ≡ 200
        → let r = reveal_handler std E cfg env id s in
          (sec : Secret) × (raw_at E s id ≡ some (json sec))
          × (is_expired sec env.now ≡ false)
          × (r.1.body ≡ obj (("ciphertext", text sec.ciphertext) ∷ []))
          × (raw_at E r.2 id ≡ none)
    unfolding reveal_handler
    reveal_sound = go (raw_at E s id) refl
      where
        go :
            (raw : Option Bytes)
            → raw_at E s id ≡ raw
            → (reveal_handler std E cfg env id s).1.status ≡ 200
            → let r = reveal_handler std E cfg env id s in
              (sec : Secret) × (raw_at E s id ≡ some (json sec))
              × (is_expired sec env.now ≡ false)
              × (r.1.body ≡ obj (("ciphertext", text sec.ciphertext) ∷ []))
              × (raw_at E r.2 id ≡ none)
        go none e h =
            absurd (ground (arith, get_meta_lem E id s, get_and_burn_lem E env.burn id id s))
        go (some junk) e h = absurd (ground (arith, get_meta_lem E id s))
        go (some (json sec)) e h = (
          sec,
          e,
          ground (arith, get_meta_lem E id s, get_and_burn_lem E env.burn id id s),
          ground (arith, get_meta_lem E id s, get_and_burn_lem E env.burn id id s),
          ground (arith, get_meta_lem E id s, get_and_burn_lem E env.burn id id s, eq_refl id),
        )
