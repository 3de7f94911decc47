-- ===== src/Lib.antt =====
-- secret-share: one-time, expiring links to secrets that the browser has encrypted. The program is
-- a Go server over a bbolt database.
--
-- Its parts, and the modules that model them:
-- - internal/domain/secrets, internal/models/secret: a secret is created under a fresh id, peeked
--   at, revealed once, and swept after its expiry. Secret and Secrets/Store are the record and the
--   store (Store.Create is `create`, GetMeta `get_meta`, GetAndBurn `get_and_burn`, Delete
--   `remove`, DeleteExpired `delete_expired`); Secrets/Handler is the endpoints (`create_handler`,
--   `meta_handler`, `reveal_handler`); Secrets/Burn, Sweep, Once, Lifecycle and Created are the
--   proofs.
-- - internal/domain/secretviews: how many views a multi-view secret has left, with a copy of its
--   ciphertext. Views/Store, with proofs in Views/Budget and Views/Limit.
-- - internal/domain/secretvis: the ids that only a signed-in user may reveal. Visibility/Store,
--   with proofs in Visibility/Marks.
-- - internal/domain/files, internal/models/file: encrypted files, with the life of a secret.
--   Files/Store, Files/Handler, with proofs in Files/Laws, Sweep and Lifecycle.
-- - internal/models/user, internal/domain/users: the console users and their administration. User,
--   Users/Store, Users/Fields and Users/Handler, with proofs in Users/Laws, Lockout, Manned and
--   Requests.
-- - internal/core/session: the signed session cookie. Session, and Session/Cookie its attributes,
--   with proofs in Session/RoundTrip.
-- - internal/domain/auth/handler.go, 2fa.go: sign-in with a password and a second factor.
--   Login/Handler, with proofs in Login/Sound and Login/Recovery. Login/Probe is Me, Info and
--   Logout, with proofs beside them. Login/SecretBox is internal/core/secretbox, which seals the
--   secrets of the second factor.
-- - internal/domain/auth/account.go, 2fa.go: what a signed-in user changes of the own record.
--   Account/Self is localSelfUser, with the panics that follow its refusals; Account/TwoFactor the
--   second factor (TwoFASetup, TwoFAConfirm, TwoFADisable, TwoFARecoveryRegenerate), and
--   Account/Credentials the email and the password (ChangeEmail, ChangePassword).
--   Account/Requests gathers them. Proofs are in Account/Proven, Outcomes, Recovery, Refused,
--   Gated, Secured and Secured/Writes.
-- - internal/domain/auth/webauthn.go, internal/core/passkey: Passkey is the stored blob,
--   Passkey/Ceremony the state cookie and the configuration, Passkey/Register the registration,
--   the list and the removal, Passkey/Login the sign-in, with proofs in Passkey/Sound.
-- - internal/core/oidc, internal/domain/auth/oidc.go: sign-in through an OpenID provider.
--   Oidc/Registry builds the providers, Oidc/State signs the state cookie, Oidc/Flow is the
--   redirect and the exchange of a code (Authorize, Exchange), Oidc/Allow who may sign in and as
--   what, Oidc/Provision the user that results, and Oidc/Callback the handler that joins them.
--   Proofs are in Oidc/Grants and beside the definitions of Oidc/Flow and Oidc/State.
-- - internal/server: the middleware round the handlers (middleware.go is Server/Middleware,
--   multiview.go is Server/Multiview) and the routes that compose them (routes.go is Server/Routes,
--   Server/FileRoutes and Server/Admin). Server/World is what they share: the stores. Proofs are
--   in Server/Access, Admin, SignedIn, Exposure, Budgeted and Privacy; Server/Limits is the limit
--   on bodies of server.go.
-- - internal/cli/serve.go: the sweepers of private marks and view budgets. Server/Sweepers, with
--   proofs in Server/Orphans.
-- - internal/core/env/config.go: the settings. Config is the record; Config/Providers checks
--   the settings of a provider, Config/Environment overrides them from the environment, and
--   Config/Validate is Validate. Proofs are in Config/Lifetimes, SignIn and Valid.
-- - internal/cli: the commands that keep the users (user.go) and the first administrator
--   (serve.go). Cli/Prompt reads a password, Cli/Users and Cli/Commands are the commands,
--   Cli/Bootstrap the seeding, Cli/Admins, Writes, Keyed and Created the proofs.
-- - internal/core/response is Http, internal/core/tlsutils (ValidateConfig, Enabled, Build) is Tls,
--   and the errors of fmt.Errorf are Failure.
--
-- How the code is modelled. A store is a nil handle (`closed`) or an open database whose bucket
-- may not exist yet (`opened`). An operation is a function from the store to what the method
-- returns and the store that it leaves; its transaction either commits or is rolled back, and the
-- answer of the commit is an input, so that a theorem can range over the failures of commits. What
-- a handler reads from the world (the clock, the random id, the hash of a password) is a record of
-- inputs. A handler returns its error, its response and the stores; a middleware is a function of
-- the handler that it wraps. bbolt runs writers one after the other, so requests that run at the
-- same time are sequences of transactions.
--
-- Parameters. bbolt's buckets are `Engine` (Bolt), of which Bolt/Memory is an instance; package
-- strings and time.ParseDuration are `Std`; JSON, base64, hex and HMAC are `Codec` (Session);
-- bcrypt is `Bcrypt` (User), the TOTP library with the secret box is `Totp` (Login/Handler), and
-- encoding/base64, by which JSON holds the bytes of a file, is `Base64` (Files/Store); go-webauthn,
-- golang.org/x/oauth2 with go-oidc, net/url and the terminal are records beside the code that calls
-- them. Their fields of proofs are documented behaviour of those packages.
--
-- Bounds. Go's int is an integer with its wrap-around at 2 ^ 63 written out where the code
-- computes with one; a time is a number of nanoseconds since Go's zero time. All loops are
-- recursion on the list that they range over, and no definition takes fuel.
--
-- Not modelled: what Viper does to find and merge a settings file, the making of a certificate
-- and the listeners (their effect is input and output), metrics and log output, the limits of
-- rates and the headers of caches, what a command prints, and the browser's part, which is not
-- Go. The random generation of ids and codes is a call of crypto/rand, whose answer is an input.
pub mod Prelude
pub mod Account
pub mod Bolt
pub mod Std
pub mod Failure
pub mod Tls
pub mod Cli
pub mod Secret
pub mod Http
pub mod Config
pub mod Secrets
pub mod Views
pub mod Files
pub mod Visibility
pub mod User
pub mod Users
pub mod Session
pub mod Oidc
pub mod Passkey
pub mod Login
pub mod Server
pub mod Tests
