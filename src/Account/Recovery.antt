-- ===== src/Account/Recovery.antt =====
-- The confirmation of the second factor, internal/domain/auth/2fa.go, and the recovery codes that
-- it shows.
use secret_share.Session.{Codec}
use secret_share.Login.Handler.{Totp}
use secret_share.Bolt.{Engine}
-- That bcrypt accepts a text under the hash it gave for that text.
use secret_share.User.{consume_recovery_code, norm_recovery, Bcrypt, User}
use secret_share.Std.{Std}
use secret_share.Prelude.{◌≡◌, false, ℕ, String, true, Option, ◌==◌, some}
use secret_share.Account.TwoFactor.{State}

pub record IsSound (bcrypt : Bcrypt) (salted : ℕ → String → Option String) : Type 0 where
  pub matches_own : (n : ℕ) (s h : String) → salted n s ≡ some h → bcrypt.matches h s ≡ true

module _ (std : Std) (bcrypt : Bcrypt) where
  -- A code that the user may type in place of a code of the authenticator.
  abbrev pub IsAccepted : User → String → Type 0
  IsAccepted p code =
      (norm_recovery std code == "") ≡ false
      → (q : User) × (consume_recovery_code std bcrypt p code ≡ some q)

module _ (std : Std) (E : Engine) (codec : Codec) (bcrypt : Bcrypt) (totp : Totp) where
  abbrev A : Type 0
  A = State std E codec bcrypt totp
