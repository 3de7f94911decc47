-- ===== src/Server/Limits.antt =====
-- The limit on the body of a request, New of internal/server/server.go, next to the limits that the
-- handlers set (internal/domain/files/handler.go).
use secret_share.Std.{Std}
use secret_share.Prelude.{
  length, ◌≤◌, leb_ℤ, eqb, pos_part, neg_part, ltb, inr, true, ◌<◌, arith, String, inl, ◌^◌, ℕ, ◌≡◌,
  ◌∙◌, ap, ◌*◌, ◌+◌, ◌&&◌, of_bits, bits, ltb_ℤ, ℤ, pos, Bool-cases, if◌then◌else◌,
}
use secret_share.Files.Store.{Base64, Blob, FileStore}
use secret_share.Files.Handler.{FileEnv, create_file_handler}
use secret_share.Config.{SecretsConfig, FilesConfig}
use secret_share.Bolt.{Engine}

abbrev pub base_limit : ℕ
base_limit = 2 * 1024 * 1024

abbrev pub slack : ℕ
slack = 1024 * 1024

-- Go's addition on int; the framework answers 413 to a longer body.
unfoldable pub body_limit : FilesConfig → ℤ
unfolding of_bits bits
body_limit f =
    let lifted = of_bits (bits f.max_size_bytes + slack) in
    if f.enabled && ltb_ℤ (pos base_limit) lifted then lifted else pos base_limit

-- Where the addition of the slack does not pass the greatest int, it is the sum.
lifted_lem : (n : ℕ) → n + slack < 2 ^ 63 → of_bits (bits (pos n) + slack) ≡ pos (n + slack)
unfolding of_bits bits
lifted_lem n small = ground arith

module _ (std : Std) (E : Engine) (b64 : Base64) (cfg : SecretsConfig) (files : FilesConfig) where
  -- The server cuts off no file that the upload would take: where the limit of a file and the slack
  -- fit into an int, an upload that answers 200 has a body within the limit of the server, which
  -- is never below 2 MiB.
  pub body_limit-create_file_handler :
      (n : ℕ) (env : FileEnv) (header : String) (body : Blob) (s : FileStore E)
      → files.max_size_bytes ≡ pos n
      → n + slack < 2 ^ 63
      → (create_file_handler std E b64 cfg files env header body s).1.status ≡ 200
      → (leb_ℤ (pos (length body)) (body_limit files) ≡ true)
        × (leb_ℤ (pos base_limit) (body_limit files) ≡ true)
  unfolding create_file_handler body_limit
  body_limit-create_file_handler n env header body s size small taken =
      let sum : of_bits (bits files.max_size_bytes + slack) ≡ pos (n + slack) =
        ap (λ m. of_bits (bits m + slack)) size ∙ lifted_lem n small in
      let base : pos_part files.max_size_bytes ≡ n = ap pos_part size in
      let no_sign : neg_part files.max_size_bytes ≡ 0 = ap neg_part size in
      elim (Bool-cases files.enabled) [
        | inr off ↦ absurd (ground arith)
        | inl on ↦ elim (Bool-cases (eqb (length body) 0)) [
          | inl empty ↦ absurd (ground arith)
          | inr some_bytes ↦ elim (Bool-cases (ltb_ℤ files.max_size_bytes (pos (length body)))) [
            | inl big ↦ absurd (ground arith)
            | inr fits ↦
                let shorter : length body ≤ n = ground (arith, fits, base, no_sign) in
                elim (Bool-cases (ltb base_limit (n + slack))) [
                  | inl above ↦ (ground (arith, sum, shorter, on), ground (arith, sum, shorter, on))
                  | inr under ↦ (ground (arith, sum, shorter, on), ground (arith, sum, shorter, on))
                ]
          ]
        ]
      ]
