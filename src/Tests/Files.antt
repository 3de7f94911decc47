-- ===== src/Tests/Files.antt =====
-- Tests of the encrypted files and of the sweepers.
use Prim.Native.Char.{Char, code}
use mathlib.Core.Option
use secret_share.Server.Limits.{body_limit, base_limit, body_limit-create_file_handler}
use secret_share.Visibility.Store.{
  marked_ids, list_private, VisibilityStore, drop_mark, set_private, is_private,
}
use secret_share.Tests.Fixtures.{one_secret, one_budget, plain, settings}
use secret_share.Server.Sweepers.{sweep_marks, sweep_marks_loop, is_orphan, sweep_mark, sweep_views}
use secret_share.Server.Orphans.{is_present, sweep_views_lem, sweep_marks_lem}
use secret_share.Secrets.Store.{get_meta}
use secret_share.Secrets.Lifecycle.{answer}
use secret_share.Secrets.Handler.{settled}
use secret_share.Secrets.Burn.{committed}
use secret_share.Secret.{Time}
use secret_share.Prelude.{
  Option, suc, ◌+◌, ◌∙◌, zero, ℕ, length, eqb, ap, ◌*◌, ltb_ℤ, leb_ℤ, bits, of_bits, true, String,
  ◌∷◌, [], ◌&&◌, ◌==◌, some, refl, arith, false, none, ◌≡◌, pos, count_if, if◌then◌else◌,
}
use secret_share.Http.{blob, text, Reply}
use secret_share.Files.Sweep.{files_of}
use secret_share.Files.Store.{
  read_file, Base64, Blob, FileDoc, encodable_file, create_file, FileStore, is_waste,
  is_expired_file,
}
use secret_share.Files.Lifecycle.{reveal_file-create_file, reveal_file_spec, reveal_file-refines}
use secret_share.Files.Laws.{shown}
use secret_share.Files.Handler.{
  reveal_file_handler, resolve_file_ttl, new_file, save_file, create_file_handler, FileEnv,
}
use secret_share.Config.{FilesConfig, hour, max_ttl_duration}
use secret_share.Bolt.Memory.{memory}
use secret_share.Bolt.{raw_in, junk, json, raw_at, opened}

abbrev file_limits : FilesConfig
file_limits = record { enabled = true; max_size_bytes = pos 1000 }

abbrev file_env : Time → String → FileEnv
file_env now id = record { now = now; new_id = some id; save = none; burn = none }

-- Bytes as rows of ticks.
abbrev tick : Char
tick = "1"

abbrev stop : Char
stop = ","

abbrev ticks : ℕ → String → String
ticks zero rest = String.◌∷◌ stop rest
ticks (suc n) rest = String.◌∷◌ tick (ticks n rest)

abbrev write_ticks : Blob → String
write_ticks [] = ""
write_ticks (n ∷ ns) = ticks n (write_ticks ns)

abbrev read_ticks : ℕ → String → Option Blob
read_ticks count String.[] = some []
read_ticks count (String.◌∷◌ c s) = elim (eqb (code c) b'1') [
  | true ↦ read_ticks (suc count) s
  | false ↦ Option.map (λ l. count ∷ l) (read_ticks 0 s)
]

read_ticks-ticks :
    (n count : ℕ) (rest : String)
    → read_ticks count (ticks n rest) ≡ Option.map (λ l. (count + n) ∷ l) (read_ticks 0 rest)
read_ticks-ticks zero count rest =
    ap (λ k. Option.map (λ l. k ∷ l) (read_ticks 0 rest)) (omega arith)
read_ticks-ticks (suc n) count rest =
    read_ticks-ticks n (suc count) rest
    ∙ ap (λ k. Option.map (λ l. k ∷ l) (read_ticks 0 rest)) (omega arith)

read_ticks-write_ticks : (b : Blob) → read_ticks 0 (write_ticks b) ≡ some b
read_ticks-write_ticks [] = refl
read_ticks-write_ticks (n ∷ ns) =
    read_ticks-ticks n 0 (write_ticks ns)
    ∙ ap (λ k. Option.map (λ l. k ∷ l) (read_ticks 0 (write_ticks ns))) (omega arith)
    ∙ ap (λ o. Option.map (λ l. n ∷ l) o) (read_ticks-write_ticks ns)

unfoldable tick_codec : Base64
tick_codec = record {
  encode = write_ticks;
  decode = read_ticks 0;
  decode-encode = λ b good. read_ticks-write_ticks b;
}

-- Two bytes that are no text in UTF-8.
abbrev two_bytes : Blob
two_bytes = 255 ∷ 0 ∷ []

abbrev uploaded : Reply (FileStore memory)
uploaded =
    create_file_handler plain memory tick_codec settings file_limits (file_env 50 "f") "1h"
      two_bytes none

-- One good file, one that has expired, and bytes that do not decode.
abbrev one_file : FileDoc
one_file = record { id = "f"; ciphertext = ","; created_at = 1; expires_at = 100; size = 4 }

unfoldable three_files : FileStore memory
unfolding memory
three_files = some (
  ("f", json one_file)
      ∷ ("g", json (record one_file { id = "g"; expires_at = 9 }))
      ∷ ("h", junk)
      ∷ [],
  (refl, (refl, (refl, tt))),
)

file_ttl : resolve_file_ttl plain settings "1h" ≡ settled (pos hour)
unfolding resolve_file_ttl max_ttl_duration
file_ttl = refl

upload_answers : uploaded.1 ≡ answer 200 (("id", text "f") ∷ [])
unfolding create_file_handler resolve_file_ttl max_ttl_duration save_file new_file create_file
    encodable_file memory
upload_answers = refl

reveal_file-create_file_example :
    let first = reveal_file_handler memory tick_codec (file_env 60 "x") "f" uploaded.2 in
    let second = reveal_file_handler memory tick_codec (file_env 70 "y") "f" first.2 in
    (first.1 ≡ record { status = 200; body = blob two_bytes })
    × (second.1 ≡ answer 404 (("error", text "not found") ∷ []))
reveal_file-create_file_example =
    reveal_file-create_file plain memory tick_codec settings file_limits (file_env 50 "f") "1h"
      two_bytes none "f" (pos hour) (file_env 60 "x") (file_env 70 "y")
      (omega arith, (omega arith, tt)) upload_answers file_ttl refl refl (omega arith)

reveal_file-refines_example :
    let r = reveal_file_handler memory tick_codec (file_env 60 "x") "f" three_files in
    (r.1 ≡ reveal_file_spec none (shown tick_codec 60 (raw_in memory three_files "f")))
    × (raw_in memory r.2 "f"
        ≡ committed none
            (if "f" == "f" then none else raw_in memory three_files "f")
            (raw_in memory three_files "f"))
reveal_file-refines_example =
    reveal_file-refines memory tick_codec (file_env 60 "x") "f" "f" three_files

two_are_waste : count_if (λ p. is_waste tick_codec 60 p.1) (files_of memory three_files) ≡ 2
unfolding is_waste read_file tick_codec is_expired_file files_of memory three_files
two_are_waste = refl

-- The id of a private file, and the tick that makes it public.
abbrev marks : VisibilityStore memory
marks = (set_private memory none "f" (opened none)).2

sweep_marks_lem_example :
    is_private memory "f" (sweep_marks memory none (λ id. none) one_secret marks).1
    ≡ (is_private memory "f" marks && is_present memory (raw_at memory one_secret "f"))
sweep_marks_lem_example = sweep_marks_lem memory (λ id. none) one_secret marks "f" (λ id. refl)

file_becomes_public :
    is_private memory "f" (sweep_marks memory none (λ id. none) one_secret marks).1 ≡ false
unfolding sweep_marks sweep_marks_loop sweep_mark is_orphan get_meta list_private marked_ids
    set_private drop_mark is_private memory one_secret
file_becomes_public = refl

sweep_views_lem_example :
    raw_at memory (sweep_views memory none (λ id. none) one_secret one_budget).1 "a" ≡ (
      if is_present memory (raw_at memory one_secret "a")
      then raw_at memory one_budget "a"
      else none)
sweep_views_lem_example = sweep_views_lem memory (λ id. none) one_secret one_budget "a" (λ id. refl)

upload_is_ok : uploaded.1.status ≡ 200
upload_is_ok = ap (λ r. r.status) upload_answers

body_limit-create_file_handler_example :
    (leb_ℤ (pos (length two_bytes)) (body_limit file_limits) ≡ true)
    × (leb_ℤ (pos base_limit) (body_limit file_limits) ≡ true)
body_limit-create_file_handler_example =
    body_limit-create_file_handler plain memory tick_codec settings file_limits 1000
      (file_env 50 "f") "1h" two_bytes none refl (omega arith) upload_is_ok

-- Secrets of 4 MiB may be configured, and are cut off at 2 MiB.
secret_is_cut : ltb_ℤ (body_limit file_limits) (pos (4 * 1024 * 1024)) ≡ true
unfolding body_limit of_bits bits
secret_is_cut = refl
