-- ===== src/Files/Laws.antt =====
-- What the operations of the store of files (internal/domain/files/store.go) do to the bytes under
-- each id.
use secret_share.Secrets.Burn.{committed}
use secret_share.Secret.{Time}
use secret_share.Prelude.{
  inl, inr, Option-cases, String, ◌==◌, Option, eq_iff, none, arith, ◌≡◌, some, refl, if◌then◌else◌,
}
use secret_share.Files.Store.{
  Base64, read_file, document, FileStore, peek_file, burn_file, create_file, FileBytes, File,
  is_expired_file,
}
use secret_share.Bolt.Laws.{delete_at, put_at}
use secret_share.Bolt.{raw_in, json, Engine, Error}

-- What a reader at some time may be given of the bytes under an id: a file that has not expired.
unfoldable pub shown : Base64 → Time → Option FileBytes → Option File
shown b64 now none = none
shown b64 now (some raw) = elim (read_file b64 raw) [
  | none ↦ none
  | some f ↦ if is_expired_file f now then none else some f
]

module _ (E : Engine) (b64 : Base64) where
  pub create_file_lem :
      (commit : Option Error) (f : File) (j : String) (b : FileStore E)
      → let r = create_file E b64 commit f b in
        raw_in E r.2 j
        ≡ committed r.1
            (if f.id == j then some (json (document b64 f)) else raw_in E b j)
            (raw_in E b j)
  unfolding create_file raw_in
  create_file_lem commit f j none =
      let d = json (document b64 f) in
      ground (arith, put_at E (E.empty FileBytes) f.id j d, E.get-empty FileBytes j)
  create_file_lem commit f j (some b) = ground (arith, put_at E b f.id j (json (document b64 f)))

  -- A burn fails only if its commit does. Otherwise it gives the file that was there and had not
  -- expired, and the id is then absent, also where its file had expired or did not decode; with
  -- an error, and at every other id, the bytes are what they were.
  pub burn_file_lem :
      (commit : Option Error) (now : Time) (id j : String) (b : FileStore E)
      → let r = burn_file E b64 commit now id b in
        (r.0 ≡ shown b64 now (raw_in E b id))
        × (r.1 ≡ commit)
        × (raw_in E r.2 j
            ≡ committed commit (if id == j then none else raw_in E b j) (raw_in E b j))
  unfolding burn_file raw_in shown
  burn_file_lem commit now id j none = ground arith
  burn_file_lem commit now id j (some b) = elim (Option-cases (E.get b id)) [
    | inl nil ↦ (ground (arith, nil), ground (arith, nil), ground (arith, nil, eq_iff id j))
    | inr (raw, there) ↦
        let (cut, deleted, at) = delete_at E b id j in
        elim (Option-cases (read_file b64 raw)) [
          | inl bad ↦ (
            ground (arith, there, deleted, bad),
            ground (arith, there, deleted, bad),
            ground (arith, there, deleted, bad, at),
          )
          | inr (f, good) ↦ (
            ground (arith, there, deleted, good),
            ground (arith, there, deleted, good),
            ground (arith, there, deleted, good, at),
          )
        ]
  ]

  pub peek_file_lem :
      (now : Time) (id : String) (b : FileStore E)
      → (peek_file E b64 now id b).1 ≡ none
      → (peek_file E b64 now id b).0 ≡ shown b64 now (raw_in E b id)
  unfolding peek_file raw_in shown
  peek_file_lem now id none h = refl
  peek_file_lem now id (some b) h = elim (Option-cases (E.get b id)) [
    | inl nil ↦ ground (arith, nil)
    | inr (raw, there) ↦ elim (Option-cases (read_file b64 raw)) [
      | inl bad ↦ ground (arith, there, bad)
      | inr (f, good) ↦ ground (arith, there, good)
    ]
  ]
