-- ===== src/Secrets/Handler.antt =====
-- The create, meta and reveal endpoints of secrets, internal/domain/secrets/handler.go. What a
-- handler reads from the world (the clock, the random id, the answers of its commits) is `Env`.
use secret_share.Std.{Std}
use secret_share.Secrets.Store.{get_meta, get_and_burn, remove, Store, create}
use secret_share.Secret.{Time, is_expired, Secret}
use secret_share.Prelude.{
  ◌==◌, String, none, len, [], ◌-◌, ◌∷◌, ◌+◌, ◌*◌, false, true, some, Option, bits, pos, leb_ℤ, ℤ,
  pos_part, of_bits, neg_part, ltb_ℤ, if◌then◌else◌,
}
use secret_share.Http.{
  parser_error, formatted_int, ok, flag, Reply, error, instant, formatted, int, reply, bad_request,
  internal, not_found, Value, text,
}
use secret_share.Config.{default_ttl_duration, max_ttl_duration, SecretsConfig}
use secret_share.Bolt.{Engine, Error}

pub record CreateRequest : Type 0 where
  pub ttl : String
  pub ciphertext : String

pub record Env : Type 0 where
  -- time.Now()
  pub now : Time
  -- secret.NewID(), none for an error
  pub new_id : Option String
  -- the commits of Create, of the lazy Delete, and of GetAndBurn
  pub save : Option Error
  pub reap : Option Error
  pub burn : Option Error

-- A call that gives a value or an error text.
pub data Result (A : Type 0) : Type 0 where
  settled : A → Result A
  rejected : Value → Result A

-- t.Add(d)
abbrev pub add_duration : Time → ℤ → Time
add_duration t d = t + pos_part d - neg_part d

-- h.Runtime.Config.Secrets.MaxSizeBytes*2+1024 on int
unfoldable pub size_limit : ℤ → ℤ
unfolding of_bits bits
size_limit m = of_bits (bits m * 2 + 1024)

module _ (std : Std) (cfg : SecretsConfig) where
  open std use {trim_space, parse_duration}

  unfoldable pub resolve_ttl : String → Result ℤ
  resolve_ttl raw =
      let trimmed = trim_space raw in
      if trimmed == ""
      then settled (default_ttl_duration std cfg)
      else elim (parse_duration trimmed) [
        | none ↦ rejected (formatted "ttl %q invalid: want a Go duration like 1h" (trimmed ∷ []))
        | some d ↦
            if leb_ℤ d (pos 0)
            then rejected (formatted "ttl %q invalid: want a Go duration like 1h" (trimmed ∷ []))
            else if ltb_ℤ (max_ttl_duration std cfg) d
            then rejected (formatted_int "ttl exceeds the maximum of %s" (max_ttl_duration std cfg))
            else settled d
      ]

module _ (std : Std) (E : Engine) (cfg : SecretsConfig) where
  open std use {trim_space}

  -- The record that Create builds.
  unfoldable pub new_secret : String → String → Time → ℤ → Secret
  new_secret id ct now ttl = record {
    id = id;
    ciphertext = ct;
    created_at = now;
    expires_at = add_duration now ttl;
    size = len ct;
  }

  unfoldable pub save_secret : Env → Secret → Store E → Reply (Store E)
  save_secret env sec s =
      let (_, err, s') = create E env.save (some sec) s in
      elim err [
        | some e ↦ internal s'
        | none ↦ reply 201 (("id", text sec.id) ∷ ("expires_at", instant sec.expires_at) ∷ []) s'
      ]

  -- `none` is a body that does not parse.
  unfoldable pub create_handler : Env → Option CreateRequest → Store E → Reply (Store E)
  create_handler env none s = bad_request parser_error s
  create_handler env (some body) s =
      if trim_space body.ciphertext == ""
      then error 400 (text "ciphertext is required") s
      else if ltb_ℤ (size_limit cfg.max_size_bytes) (pos (len body.ciphertext))
      then error 413 (text "secret too large") s
      else elim (resolve_ttl std cfg body.ttl) [
        | rejected msg ↦ bad_request msg s
        | settled ttl ↦ elim env.new_id [
          | none ↦ internal s
          | some id ↦ save_secret env (new_secret id body.ciphertext env.now ttl) s
        ]
      ]

  unfoldable pub meta_handler : Env → String → Store E → Reply (Store E)
  meta_handler env id s =
      let (found, err) = get_meta E id s in
      elim err [
        | some e ↦ internal s
        | none ↦ elim found [
          | none ↦ ok (("exists", flag false) ∷ []) s
          | some sec ↦
              if is_expired sec env.now
              then ok (("exists", flag false) ∷ []) (remove E env.reap id s).2
              else ok (("exists", flag true) ∷ ("size", int (pos sec.size)) ∷ []) s
        ]
      ]

  burn_secret : Env → String → Store E → Reply (Store E)
  burn_secret env id s =
      let (burned, err, s') = get_and_burn E env.burn id s in
      elim err [
        | some e ↦ internal s'
        | none ↦ elim burned [
          | none ↦ not_found "secret not found or already viewed" s'
          | some sec ↦ ok (("ciphertext", text sec.ciphertext) ∷ []) s'
        ]
      ]

  unfoldable pub reveal_handler : Env → String → Store E → Reply (Store E)
  unfolding burn_secret
  reveal_handler env id s =
      let (found, err) = get_meta E id s in
      elim err [
        | some e ↦ internal s
        | none ↦ elim found [
          | none ↦ burn_secret env id s
          | some sec ↦
              if is_expired sec env.now
              then not_found "secret not found or already viewed" (remove E env.reap id s).2
              else burn_secret env id s
        ]
      ]
