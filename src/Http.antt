-- ===== src/Http.antt =====
-- Requests and responses as the handlers see them (internal/core/response/response.go, over the
-- web framework). A JSON body is kept as the fiber.Map that is written, not as its text.
use secret_share.Secret.{Time}
use secret_share.Prelude.{
  none, ◌==◌, ◌&&◌, ℕ, Option, List, [], String, ◌∷◌, some, Bool, ℤ, lookup, if◌then◌else◌, ltb,
  leb,
}
use secret_share.Bolt.{Error}

-- A value in a body; `formatted` and `formatted_int` are texts by fmt.Sprintf or fmt.Errorf, with
-- their arguments (a duration in nanoseconds).
pub data Value : Type 0 where
  -- the text of the error that the framework's body parser gave
  parser_error : Value
  text : String → Value
  formatted : String → List String → Value
  formatted_int : String → ℤ → Value
  int : ℤ → Value
  flag : Bool → Value
  instant : Time → Value
  null : Value
  texts : List String → Value

pub data Body : Type 0 where
  obj : List (String × Value) → Body
  bytes : String → Body
  -- bytes that need be no text
  blob : List ℕ → Body
  listing : String → List (List (String × Value)) → Body
  redirect : String → Body

pub record Response : Type 0 where
  pub status : ℕ
  pub body : Body

-- What a handler returns, with what it leaves: its error, the response written, the state.
abbrev pub Reply : Type 0 → Type 0
Reply S = Option Error × Response × S

abbrev pub reply : {S : Type 0} → ℕ → List (String × Value) → S → Reply S
reply code m s = (none, record { status = code; body = obj m }, s)

abbrev pub ok : {S : Type 0} → List (String × Value) → S → Reply S
ok m s = reply 200 m s

abbrev pub error : {S : Type 0} → ℕ → Value → S → Reply S
error code msg s = reply code (("error", msg) ∷ []) s

abbrev pub bad_request : {S : Type 0} → Value → S → Reply S
bad_request msg s = error 400 msg s

abbrev pub or_default : String → String → Value
or_default msg default = if msg == "" then text default else text msg

abbrev pub unauthorized : {S : Type 0} → String → S → Reply S
unauthorized msg s = error 401 (or_default msg "unauthorized") s

abbrev pub forbidden : {S : Type 0} → String → S → Reply S
forbidden msg s = error 403 (or_default msg "forbidden") s

abbrev pub not_found : {S : Type 0} → String → S → Reply S
not_found msg s = error 404 (or_default msg "not found") s

-- The underlying error is logged, and not told.
abbrev pub internal : {S : Type 0} → S → Reply S
internal s = error 500 (text "internal error") s

-- json.Unmarshal of a response body into a struct with the one field `id`; none for an error.
unfoldable pub body_id : Body → Option String
body_id (obj m) = elim (lookup "id" m) [
  | none ↦ some ""
  | some v ↦ elim v [ text s ↦ some s | null ↦ some "" | _ ↦ none ]
]
body_id (bytes b) = none
body_id (blob b) = none
body_id (listing name rows) = some ""
body_id (redirect to) = none

-- A status in 200..299.
abbrev pub is_success : ℕ → Bool
is_success code = leb 200 code && ltb code 300
