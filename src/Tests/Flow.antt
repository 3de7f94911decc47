-- ===== src/Tests/Flow.antt =====
-- Tests of the round trip of a sign-in.
use secret_share.Tests.Fixtures.{plain, root_codec, one_user}
use secret_share.Prelude.{
  suc, ◌∙◌, inl, refl, ℕ, String, none, ◌≡◌, [], some, true, ap, inr, ◌∷◌, zero, Option, has_no_dot,
  pos, if◌then◌else◌, Bool-cases, ◌<>◌,
}
use secret_share.Oidc.State.{sign_state, verify_state, StateCodec}
use secret_share.Oidc.Registry.{get_provider}
use secret_share.Oidc.Flow.{
  IdpCalls, Draws, new_payload, verify_state-authorize, Provider, authorize,
}
use secret_share.Oidc.Callback.{
  state_cookie_path, SsoState, oidc_start, CallbackEnv, CallbackRequest,
}
use secret_share.Oidc.Allow.{IdClaims}
use secret_share.Failure.{passed}
use secret_share.Config.Providers.{matches_id}
use secret_share.Bolt.Memory.{memory}
use Prim.Native.Char.{Char}
use Prim.Native.String.append.{nil, cons}

-- Numbers in strokes.
abbrev strokes : ℕ → String
strokes zero = ""
strokes (suc n) = "1" <> strokes n

abbrev clean : String → String
clean s = if has_no_dot s then s else ""

clean_dot : (s : String) → has_no_dot (clean s) ≡ true
clean_dot s = elim (Bool-cases (has_no_dot s)) [ inl good ↦ rw good good | inr bad ↦ rw bad refl ]

abbrev read_strokes : String → ℕ
read_strokes String.[] = 0
read_strokes (String.◌∷◌ c s) = suc (read_strokes s)

abbrev stroke : Char
stroke = "1"

strokes_step : (n : ℕ) → strokes (suc n) ≡ String.◌∷◌ stroke (strokes n)
strokes_step n = cons stroke "" (strokes n) ∙ ap (λ s. String.◌∷◌ stroke s) (nil (strokes n))

read_strokes_lem : (n : ℕ) → read_strokes (strokes n) ≡ n
read_strokes_lem zero = refl
read_strokes_lem (suc n) = ap read_strokes (strokes_step n) ∙ ap suc (read_strokes_lem n)

strokes_dot : (n : ℕ) → has_no_dot (strokes n) ≡ true
strokes_dot zero = refl
strokes_dot (suc n) = ap has_no_dot (strokes_step n) ∙ strokes_dot n

unfoldable state_codec : StateCodec
state_codec = record {
  mac = λ secret body. "sig";
  to_hex = clean;
  from_hex = λ s. some s;
  format_int = strokes;
  parse_int = λ s. some (pos (read_strokes s));
  to_base64 = clean;
  sha256 = λ s. s;
  from_hex-to_hex = λ secret body. refl;
  parse_int-format_int = λ n. ap (λ m. some (pos m)) (read_strokes_lem n);
  to_hex_dot = clean_dot;
  format_int_dot = strokes_dot;
  to_base64_dot = clean_dot;
}

abbrev idp_claims : IdClaims
idp_claims = record {
  subject = "root@x";
  email = "root@x";
  email_verified = true;
  full_name = "";
  raw = none;
}

abbrev idp : IdpCalls
idp = record {
  auth_code_url = λ id st challenge nonce. "https://idp.example";
  exchange_code = λ id code verifier. some (some "token");
  verify_token = λ id raw. some (record { nonce = "n"; claims = some idp_claims });
}

abbrev idp_provider : Provider
idp_provider = record {
  id = "idp";
  label = "";
  issuer = "https://idp.example";
  rules = record {
    require_email_verified = true;
    allowed_domains = [];
    allowed_emails = [];
    groups_claim = "";
    admin_emails = [];
    admin_groups = [];
    user_groups = [];
    default_role = "admin";
  };
}

abbrev draws : Draws
draws = record { for_state = "s"; for_nonce = "n"; for_verifier = "v" }

abbrev no_host : String → Option String
no_host s = none

abbrev callback_env : CallbackEnv
callback_env = record {
  registry = some (record { order = "idp" ∷ []; providers = ("idp", idp_provider) ∷ [] });
  session_secret = "key";
  draws = draws;
  state_expiry = 3;
  expiry = 1000;
  sso = record { login = 30; now = 30; save = none };
}

abbrev callback : CallbackRequest
callback = record {
  provider = "idp";
  idp_error = "";
  state = "s";
  code = "c";
  state_cookie = "s.n.v.idp.111.sig";
  seconds = 2;
}

abbrev start_state : SsoState plain no_host memory root_codec state_codec idp
start_state = record { users = one_user; cookie = none; state_cookie = none }

start_sets_cookie :
    (oidc_start plain no_host memory root_codec state_codec idp callback_env "idp"
      start_state).2.state_cookie
    ≡ some ("s.n.v.idp.111.sig", "/api/auth/oidc/idp/callback")
unfolding oidc_start get_provider authorize new_payload sign_state state_cookie_path state_codec
start_sets_cookie = refl

id_fits : matches_id "idp" ≡ true
unfolding matches_id
id_fits = refl

verify_state-authorize_example :
    verify_state state_codec 2 (authorize state_codec idp idp_provider draws "key" 3).1 "key"
    ≡ passed (new_payload state_codec idp idp_provider draws)
verify_state-authorize_example =
    verify_state-authorize state_codec idp idp_provider draws "key" 3 2 id_fits refl
