-- ===== src/Tests/Fixtures.antt =====
-- The inputs of the tests: concrete functions for the calls of the standard library, stores in
-- memory, settings.
use secret_share.Session.{Codec, Claims}
use secret_share.Views.Store.{Budget, ViewsStore}
use secret_share.Users.Store.{UserStore}
use secret_share.User.{Bcrypt, User, role_admin, source_local}
use secret_share.Std.{Std}
use secret_share.Server.World.{World}
use secret_share.Server.Routes.{RouteEnv, ServerConfig}
use secret_share.Secrets.Store.{Store}
use secret_share.Secrets.Handler.{Env}
use secret_share.Secret.{Time, Secret}
use secret_share.Prelude.{
  arith, inl, inr, eq_iff, List, Bool-cases, ◌&&◌, Bool, ◌≡◌, Option, eqb, false, [], refl, ◌∷◌,
  String, true, none, ◌==◌, some, pos, negsuc, if◌then◌else◌,
}
use secret_share.Config.{AuthConfig, SecretsConfig, hour}
use secret_share.Bolt.Memory.{Pairs, memory}
use secret_share.Bolt.{opened, commit_failed, json}

-- Texts without spaces and capital letters, and two durations.
abbrev pub plain : Std
plain = record {
  trim_space = λ s. s;
  to_lower = λ s. s;
  contains = λ s sub. true;
  replace_all = λ s old new. s;
  parse_duration =
      λ s. if s == "1h" then some (pos hour) else if s == "-1h" then some (negsuc hour) else none;
  trim_space_idem = λ s. refl;
  to_lower_idem = λ s. refl;
  trim-to_lower = λ s. refl;
  trim-empty = refl;
  parse_duration-empty = refl;
}

abbrev pub settings : SecretsConfig
settings = record {
  max_size_bytes = pos 65536;
  max_ttl = "";
  default_ttl = "1h";
  allowed_ttls = [];
  max_views = pos 10;
}

-- A bucket with one pair.
abbrev pub one_pair : {V : Type 0} → String → V → Pairs V
one_pair k v = ((k, v) ∷ [], (refl, tt))

-- A secret that expires at 100.
abbrev pub old_secret : String → Secret
old_secret id = record { id = id; ciphertext = "ct"; created_at = 10; expires_at = 100; size = 2 }

unfoldable pub one_secret : Store memory
unfolding memory
one_secret = opened (some (one_pair "a" (json (old_secret "a"))))

abbrev pub two_views : Budget
two_views = record { remaining = pos 2; ciphertext = "ct" }

unfoldable pub one_budget : ViewsStore memory
unfolding memory
one_budget = opened (some (one_pair "a" (json two_views)))

-- A request at a time, with commits that succeed.
abbrev pub env_at : Time → String → Env
env_at now id = record { now = now; new_id = some id; save = none; reap = none; burn = none }

abbrev pub bucket_failed : Env
bucket_failed = record (env_at 50 "b") { burn = some commit_failed }

abbrev pub guest : Time → String → RouteEnv
guest now id = record {
  caller = record { cookie = ""; seconds = 0; view = none };
  handler = env_at now id;
  mark = none;
  budget = none;
  take = none;
  drop = none;
}

abbrev pub no_auth : AuthConfig
no_auth = record {
  enabled = false;
  gate = "create";
  session_secret = "key";
  session_ttl = "";
  local_login = true;
  bootstrap_admin = record { email = ""; password = "" };
  oidc = [];
}

abbrev pub with_auth : AuthConfig
with_auth = record no_auth { enabled = true }

abbrev pub server : AuthConfig → ServerConfig
server auth = record { secrets = settings; auth = auth }

-- An enabled admin.
abbrev pub root_user : User
root_user = record {
  email = "root@x";
  name = "";
  role = role_admin;
  source = source_local;
  password_hash = "hash";
  pinned = false;
  enabled = true;
  subject = "";
  totp_enabled = false;
  totp_secret_enc = "";
  recovery_code_hashes = [];
  webauthn_handle = "";
  passkeys = "";
  created_at = 1;
  updated_at = 1;
  last_login_at = none;
}

unfoldable pub one_user : UserStore plain memory
unfolding memory
one_user = opened (some (one_pair "root@x" (json root_user)))

abbrev pub world : World plain memory
world = record {
  secrets = one_secret;
  visibility = opened none;
  views = one_budget;
  users = one_user;
  files = none;
}

-- The claims of one session, the only ones that the codec below can write.
abbrev pub root_claims : Claims
root_claims = record {
  subject = "root@x";
  email = "root@x";
  name = "";
  groups = [];
  role = "admin";
  exp = 1000;
}

abbrev has_none : List String → Bool
has_none [] = true
has_none (g ∷ gs) = false

has_none_lem : (l : List String) → has_none l ≡ true → l ≡ []
has_none_lem [] h = refl
has_none_lem (g ∷ gs) h = cc

abbrev is_root : Claims → Bool
is_root c =
    c.subject == "root@x"
    && c.email == "root@x"
    && c.name == ""
    && c.role == "admin"
    && eqb c.exp 1000
    && has_none c.groups

abbrev encode_root : Claims → Option String
encode_root c = if is_root c then some "body" else none

abbrev read_root : String → Option Claims
read_root s = some root_claims

is_root_lem : (c : Claims) → is_root c ≡ true → c ≡ root_claims
is_root_lem c h =
    let subject : c.subject ≡ "root@x" = ground (arith, eq_iff c.subject "root@x") in
    let email : c.email ≡ "root@x" = ground (arith, eq_iff c.email "root@x") in
    let name : c.name ≡ "" = ground (arith, eq_iff c.name "") in
    let role : c.role ≡ "admin" = ground (arith, eq_iff c.role "admin") in
    let groups : c.groups ≡ [] = ground (arith, has_none_lem c.groups) in
    let exp : c.exp ≡ 1000 = ground arith in cc

pub encode_root_lem :
    (c : Claims) (body : String) → encode_root c ≡ some body → (c ≡ root_claims) × (body ≡ "body")
encode_root_lem c body h = elim (Bool-cases (is_root c)) [
  | inl this ↦ (is_root_lem c this, ground arith)
  | inr other ↦ absurd (ground arith)
]

-- A cookie is its signature, which is the secret.
unfoldable pub root_codec : Codec
root_codec = record {
  encode = encode_root;
  decode_base64 = λ s. some s;
  decode_json = read_root;
  mac = λ secret body. secret;
  to_hex = λ s. s;
  from_hex = λ s. some s;
  split_dots = λ s. "body" ∷ s ∷ [];
  join_dot = λ body sig. sig;
  decode-encode = λ c body h. (body, refl, (let (same, b) = encode_root_lem c body h in cc));
  from_hex-to_hex = λ m. refl;
  split-join = λ c body m h. (let (same, b) = encode_root_lem c body h in cc);
}

-- Hashes that are the texts themselves.
abbrev pub same_text : Bcrypt
same_text = record { matches = λ hash plain_text. hash == plain_text }
