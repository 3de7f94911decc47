-- ===== src/Files/Handler.antt =====
-- The create, meta and reveal endpoints of encrypted files, internal/domain/files/handler.go.
use secret_share.Std.{Std}
use secret_share.Secrets.Handler.{add_duration, Result, settled, rejected}
use secret_share.Secret.{Time}
use secret_share.Prelude.{
  length, [], String, not, none, true, some, Option, ◌==◌, false, ◌∷◌, ltb_ℤ, ℤ, pos, leb_ℤ,
  if◌then◌else◌, eqb,
}
use secret_share.Http.{blob, internal, not_found, Reply, int, error, formatted_int, text, flag, ok}
use secret_share.Files.Store.{Base64, Blob, peek_file, burn_file, create_file, FileStore, File}
use secret_share.Config.{SecretsConfig, default_ttl_duration, FilesConfig, max_ttl_duration}
use secret_share.Bolt.{Engine, Error}

-- What a handler reads from the world: time.Now(), file.NewID() (none for an error), the commits of
-- Create and GetAndBurn.
pub record FileEnv : Type 0 where
  pub now : Time
  pub new_id : Option String
  pub save : Option Error
  pub burn : Option Error

module _ (std : Std) (cfg : SecretsConfig) where
  open std use {trim_space, parse_duration}

  -- The lifetime that the header X-Share-TTL asks for.
  unfoldable pub resolve_file_ttl : String → Result ℤ
  resolve_file_ttl header =
      let raw = trim_space header in
      if raw == "" then settled (default_ttl_duration std cfg) else elim (parse_duration raw) [
        | none ↦ rejected (text "invalid ttl")
        | some d ↦
            if leb_ℤ d (pos 0)
            then rejected (text "invalid ttl")
            else if ltb_ℤ (max_ttl_duration std cfg) d
            then rejected (formatted_int "ttl exceeds the maximum of %s" (max_ttl_duration std cfg))
            else settled d
      ]

module _ (std : Std) (E : Engine) (b64 : Base64) (cfg : SecretsConfig) (files : FilesConfig) where
  unfoldable pub new_file : String → Blob → Time → ℤ → File
  new_file id body now ttl = record {
    id = id;
    ciphertext = body;
    created_at = now;
    expires_at = add_duration now ttl;
    size = length body;
  }

  unfoldable pub save_file : FileEnv → File → FileStore E → Reply (FileStore E)
  save_file env f s =
      let (_, err, s') = create_file E b64 env.save f s in
      elim err [ some e ↦ internal s' | none ↦ ok (("id", text f.id) ∷ []) s' ]

  unfoldable pub create_file_handler : FileEnv → String → Blob → FileStore E → Reply (FileStore E)
  create_file_handler env header body s =
      if not files.enabled
      then not_found "" s
      else if eqb (length body) 0
      then error 400 (text "empty body") s
      else if ltb_ℤ files.max_size_bytes (pos (length body))
      then error 413 (formatted_int "file exceeds the %d byte limit" files.max_size_bytes) s
      else elim (resolve_file_ttl std cfg header) [
        | rejected msg ↦ error 400 msg s
        | settled ttl ↦ elim env.new_id [
          | none ↦ internal s
          | some id ↦ save_file env (new_file id body env.now ttl) s
        ]
      ]

module _ (E : Engine) (b64 : Base64) where
  unfoldable pub meta_file_handler : FileEnv → String → FileStore E → Reply (FileStore E)
  meta_file_handler env id s =
      let (found, err) = peek_file E b64 env.now id s in
      elim err [
        | some e ↦ internal s
        | none ↦ elim found [
          | none ↦ ok (("exists", flag false) ∷ []) s
          | some f ↦ ok (("exists", flag true) ∷ ("size", int (pos f.size)) ∷ []) s
        ]
      ]

  unfoldable pub reveal_file_handler : FileEnv → String → FileStore E → Reply (FileStore E)
  reveal_file_handler env id s =
      let (burned, err, s') = burn_file E b64 env.burn env.now id s in
      elim err [
        | some e ↦ internal s'
        | none ↦ elim burned [
          | none ↦ not_found "" s'
          | some f ↦ (none, record { status = 200; body = blob f.ciphertext }, s')
        ]
      ]
