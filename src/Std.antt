-- ===== src/Std.antt =====
-- What the program calls of Go's standard library and does not compute with: a parameter.
use secret_share.Prelude.{Bool, Option, none, String, ◌≡◌, ℤ}

pub record Std : Type 0 where
  -- strings.TrimSpace and strings.ToLower
  pub trim_space : String → String
  pub to_lower : String → String
  -- strings.Contains and strings.ReplaceAll
  pub contains : String → String → Bool
  pub replace_all : String → String → String → String
  -- time.ParseDuration, in nanoseconds; none for an error
  pub parse_duration : String → Option ℤ
  pub trim_space_idem : (s : String) → trim_space (trim_space s) ≡ trim_space s
  pub to_lower_idem : (s : String) → to_lower (to_lower s) ≡ to_lower s
  -- Lowercase letters are no spaces, and a letter's lowercase is no space.
  pub trim-to_lower : (s : String) → trim_space (to_lower s) ≡ to_lower (trim_space s)
  pub trim-empty : trim_space "" ≡ ""
  pub parse_duration-empty : parse_duration "" ≡ none
