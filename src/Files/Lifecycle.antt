-- ===== src/Files/Lifecycle.antt =====
-- The life of an encrypted file through its handlers (internal/domain/files/handler.go).
use secret_share.Account.Outcomes.{saved}
use mathlib.Core.Path.{subst}
use secret_share.Std.{Std}
use secret_share.Secrets.Lifecycle.{failed, answer}
use secret_share.Secrets.Handler.{Result, add_duration, rejected, settled}
use secret_share.Secrets.Burn.{committed}
use secret_share.Prelude.{
  ◌∙◌, ap, length, not, false, ◌≤◌, sym, inr, ◌||◌, Bool, eq_refl, refl, ◌⊎◌, inl, ltb_ℤ, eqb,
  Option-cases, Bool-cases, ◌≡◌, [], Option, true, ◌==◌, none, arith, String, some, ◌∷◌, leb_ℤ, ℤ,
  pos, if◌then◌else◌,
}
use secret_share.Http.{blob, body_id, Reply, Response, text}
use secret_share.Files.Store.{
  IsBlob, document, Blob, read_file-document, Base64, create_file, is_expired_file, File, FileStore,
}
use secret_share.Files.Laws.{create_file_lem, shown, burn_file_lem}
use secret_share.Files.Handler.{
  save_file, create_file_handler, new_file, FileEnv, reveal_file_handler, resolve_file_ttl,
}
use secret_share.Config.{SecretsConfig, FilesConfig}
use secret_share.Bolt.{raw_in, json, Error, Engine}

-- The contract of a reveal: its answer to what may be shown under the id.
unfoldable pub reveal_file_spec : Option Error → Option File → Response
reveal_file_spec (some e) found = failed
reveal_file_spec none none = answer 404 (("error", text "not found") ∷ [])
reveal_file_spec none (some f) = record { status = 200; body = blob f.ciphertext }

module _ (E : Engine) (b64 : Base64) where
  -- A reveal answers the ciphertext of the file that stands under the id, if it decodes and has
  -- not expired, 404 if there is none such, and 500 if the commit fails. If it does not fail,
  -- nothing stands under the id afterwards, and every other id is as it was; else nothing changes.
  pub reveal_file-refines :
      (env : FileEnv) (id j : String) (s : FileStore E)
      → let r = reveal_file_handler E b64 env id s in
        (r.1 ≡ reveal_file_spec env.burn (shown b64 env.now (raw_in E s id)))
        × (raw_in E r.2 j
            ≡ committed env.burn (if id == j then none else raw_in E s j) (raw_in E s j))
  unfolding reveal_file_handler reveal_file_spec
  reveal_file-refines env id j s = ground (arith, burn_file_lem E b64 env.burn env.now id j s)

module _ (std : Std) (E : Engine) (b64 : Base64) (cfg : SecretsConfig) (files : FilesConfig) where
  -- A create has answered 200, and stored the body, as it was sent, for an accepted lifetime, under a
  -- fresh id, which it answers.
  pub record IsUploaded (env : FileEnv) (header : String) (body : Blob) (s : FileStore E)
      (r : Reply (FileStore E)) : Type 0 where
    pub id : String
    pub ttl : ℤ
    pub fresh : env.new_id ≡ some id
    pub lifetime : resolve_file_ttl std cfg header ≡ settled ttl
    pub fits : leb_ℤ (pos (length body)) files.max_size_bytes ≡ true
    pub answered : r.1 ≡ answer 200 (("id", text id) ∷ [])
    pub written :
        (j : String)
        → raw_in E r.2 j ≡ (
            if id == j
            then some (
                json (
                  document b64 (record {
                    id = id;
                    ciphertext = body;
                    created_at = env.now;
                    expires_at = add_duration env.now ttl;
                    size = length body;
                  })))
            else raw_in E s j)

  -- A create has stored nothing, and says why.
  pub record IsDeclined (s : FileStore E) (r : Reply (FileStore E)) : Type 0 where
    pub declined : (r.1.status ≡ 400) ⊎ (r.1.status ≡ 404) ⊎ (r.1.status ≡ 413) ⊎ (r.1.status ≡ 500)
    pub unchanged : (j : String) → raw_in E r.2 j ≡ raw_in E s j

  upload_at :
      (env : FileEnv) (header : String) (body : Blob) (id : String) (ttl : ℤ) (s : FileStore E)
      → env.new_id ≡ some id
      → resolve_file_ttl std cfg header ≡ settled ttl
      → leb_ℤ (pos (length body)) files.max_size_bytes ≡ true
      → let r =
          save_file std E b64 cfg files env (new_file std E b64 cfg files id body env.now ttl) s in
        IsUploaded env header body s r ⊎ IsDeclined s r
  unfolding save_file new_file
  upload_at env header body id ttl s fresh lifetime fits =
      let f : File = new_file std E b64 cfg files id body env.now ttl in
      elim (Option-cases (create_file E b64 env.save f s).1) [
        | inl saved ↦ inl (record {
          id = id;
          ttl = ttl;
          fresh = fresh;
          lifetime = lifetime;
          fits = fits;
          answered = ground arith;
          written = λ j. ground (arith, create_file_lem E b64 env.save f j s);
        })
        | inr (e, lost) ↦ inr (record {
          declined = ground arith;
          unchanged = λ j. ground (arith, create_file_lem E b64 env.save f j s);
        })
      ]

  -- A create stores the body that was sent, of at most max_size_bytes, for an accepted lifetime,
  -- under the id that it was given and that it answers; or it answers 400, 404, 413 or 500 and
  -- stores nothing.
  pub create_file_handler_lem :
      (env : FileEnv) (header : String) (body : Blob) (s : FileStore E)
      → let r = create_file_handler std E b64 cfg files env header body s in
        IsUploaded env header body s r ⊎ IsDeclined s r
  unfolding create_file_handler
  create_file_handler_lem env header body s =
      split (Bool-cases (not files.enabled || eqb (length body) 0))
        (Bool-cases (ltb_ℤ files.max_size_bytes (pos (length body))))
        (resolve_file_ttl std cfg header) env.new_id refl refl
    where
      IsTrue : Bool → Type 0
      IsTrue b = (b ≡ true) ⊎ (b ≡ false)

      split :
          IsTrue (not files.enabled || eqb (length body) 0)
          → IsTrue (ltb_ℤ files.max_size_bytes (pos (length body)))
          → (t : Result ℤ) (i : Option String) → resolve_file_ttl std cfg header ≡ t
          → env.new_id ≡ i
          → let r = create_file_handler std E b64 cfg files env header body s in
            IsUploaded env header body s r ⊎ IsDeclined s r
      split (inl off) _ t i p q =
          inr (record { declined = ground arith; unchanged = λ j. ground arith })
      split (inr on) (inl big) t i p q =
          inr (record { declined = ground arith; unchanged = λ j. ground arith })
      split (inr on) (inr small) (rejected msg) i p q =
          inr (record { declined = ground arith; unchanged = λ j. ground arith })
      split (inr on) (inr small) (settled ttl) none p q =
          inr (record { declined = ground arith; unchanged = λ j. ground arith })
      split (inr on) (inr small) (settled ttl) (some id) p q =
          let same : create_file_handler std E b64 cfg files env header body s
              ≡ save_file std E b64 cfg files env (new_file std E b64 cfg files id body env.now ttl)
                  s =
            ground arith in
          subst (λ r. IsUploaded env header body s r ⊎ IsDeclined s r) (sym same)
            (upload_at env header body id ttl s q p (ground arith))

  -- A create that answers 200 has stored the body, under the id that it answers, for the lifetime
  -- that the header gives.
  uploaded_lem :
      (env : FileEnv) (header : String) (body : Blob) (s : FileStore E) (id : String) (ttl : ℤ)
      → (create_file_handler std E b64 cfg files env header body s).1
        ≡ answer 200 (("id", text id) ∷ [])
      → resolve_file_ttl std cfg header ≡ settled ttl
      → raw_in E (create_file_handler std E b64 cfg files env header body s).2 id
        ≡ some (
            json (
              document b64 (record {
                id = id;
                ciphertext = body;
                created_at = env.now;
                expires_at = add_duration env.now ttl;
                size = length body;
              })))
  unfolding body_id
  uploaded_lem env header body s id ttl h until = elim (create_file_handler_lem env header body s) [
    | inr none_stored ↦
        let code : (create_file_handler std E b64 cfg files env header body s).1.status ≡ 200 =
          ap (λ r. r.status) h in
        let why = none_stored.declined in absurd (ground arith)
    | inl c ↦
        let named : some c.id ≡ some id =
          sym (ap (λ r. body_id r.body) c.answered) ∙ ap (λ r. body_id r.body) h in
        let lasting : settled c.ttl ≡ settled ttl = sym c.lifetime ∙ until in
        let same_id : c.id ≡ id = cc in
        let same_ttl : c.ttl ≡ ttl = cc in
        let here : (c.id == id) ≡ true = ap (λ k. k == id) same_id ∙ eq_refl id in
        ground (arith, c.written id, here, same_id, same_ttl)
  ]

  -- Round trip: where a create has answered 200, with an id, and the commits of two reveals of that
  -- id succeed, the first of them, no later than the end of the lifetime that the header gives,
  -- answers the bytes that were sent, and the second answers 404. On the way the bytes stand in the
  -- store as a text in base64, within JSON.
  pub reveal_file-create_file :
      (env : FileEnv) (header : String) (body : Blob) (s : FileStore E) (id : String) (ttl : ℤ)
      (now later : FileEnv)
      → IsBlob body
      → (create_file_handler std E b64 cfg files env header body s).1
        ≡ answer 200 (("id", text id) ∷ [])
      → resolve_file_ttl std cfg header ≡ settled ttl
      → now.burn ≡ none
      → later.burn ≡ none
      → now.now ≤ add_duration env.now ttl
      → let s1 = (create_file_handler std E b64 cfg files env header body s).2 in
        let first = reveal_file_handler E b64 now id s1 in
        let second = reveal_file_handler E b64 later id first.2 in
        (first.1 ≡ record { status = 200; body = blob body })
        × (second.1 ≡ answer 404 (("error", text "not found") ∷ []))
  unfolding reveal_file_spec shown is_expired_file
  reveal_file-create_file env header body s id ttl now later good answered until cn cl h =
      let s1 = (create_file_handler std E b64 cfg files env header body s).2 in
      let first = reveal_file_handler E b64 now id s1 in
      let a = reveal_file-refines E b64 now id id s1 in
      let b = reveal_file-refines E b64 later id id first.2 in
      let w = uploaded_lem env header body s id ttl answered until in
      let f : File = record {
        id = id;
        ciphertext = body;
        created_at = env.now;
        expires_at = add_duration env.now ttl;
        size = length body;
      } in
      let r = read_file-document b64 f good in
      (ground (arith, a, w, r, eq_refl id), ground (arith, a, b, w, eq_refl id))
