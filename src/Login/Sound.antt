-- ===== src/Login/Sound.antt =====
-- What a password login proves (internal/domain/auth/handler.go).
use secret_share.Users.Store.{UserStore, get_user}
use secret_share.User.{normalize_email, User, Bcrypt, consume_recovery_code}
use secret_share.Std.{Std}
use secret_share.Session.{Codec}
use secret_share.Prelude.{false, ◌⊎◌, String, some, true, ◌≡◌, ◌==◌}
use secret_share.Login.Handler.{LoginBody, Totp}
use secret_share.Bolt.{Engine}

module _ (std : Std) (E : Engine) (codec : Codec) (bcrypt : Bcrypt) (totp : Totp) where
  -- A login that set a cookie: an enabled user with this password, that has passed a second factor
  -- if it has one.
  pub record IsProven (body : LoginBody) (users : UserStore std E) : Type 0 where
    pub user : User
    pub stored : (get_user std E (normalize_email std body.email) users).0 ≡ some user
    pub enabled : user.enabled ≡ true
    pub has_password : (user.password_hash == "") ≡ false
    pub matches : bcrypt.matches user.password_hash body.password ≡ true
    pub second :
        (user.totp_enabled ≡ false)
        ⊎ (((secret : String) × (totp.open_box user.totp_secret_enc ≡ some secret)
              × (totp.validate (std.trim_space body.code) secret ≡ true))
            ⊎ ((p : User) × (consume_recovery_code std bcrypt user (std.trim_space body.code)
                  ≡ some p)))
