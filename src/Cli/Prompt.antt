-- ===== src/Cli/Prompt.antt =====
-- The questions that the commands ask, internal/cli/user.go.
use secret_share.Std.{Std}
use secret_share.Prelude.{String, none, ◌&&◌, Option, not, ◌==◌, some, [], Bool, if◌then◌else◌}
use secret_share.Failure.{raised, Checked, errorf, passed, failing, wrapping}

-- The standard input: whether it is a terminal, the line that is read up to its end (a text, and
-- whether an error ended it), and the two passwords read without echo (none for an error).
pub record Terminal : Type 0 where
  pub is_terminal : Bool
  pub line : String
  pub ended : Bool
  pub first : Option String
  pub second_time : Option String

module _ (std : Std) where
  unfoldable pub prompt_line : Terminal → Checked String
  prompt_line t =
      if t.ended && t.line == ""
      then failing (raised "ReadString")
      else passed (std.trim_space t.line)

  unfoldable pub prompt_password_twice : Terminal → Checked String
  prompt_password_twice t = if not t.is_terminal then prompt_line t else elim t.first [
    | none ↦ failing (wrapping "read password: %w" [])
    | some pw1 ↦ elim t.second_time [
      | none ↦ failing (wrapping "read password: %w" [])
      | some pw2 ↦
          if not (pw1 == pw2) then failing (errorf "passwords do not match" []) else passed pw1
    ]
  ]

  -- The flag, or the answer to the question.
  abbrev pub password_of : String → Terminal → Checked String
  password_of given t = if given == "" then prompt_password_twice t else passed given
