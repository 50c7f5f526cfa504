-- ===== src/Auth.antt =====
-- `login` of backend/crates/ferum-application/src/usecases/auth_usecase.rs, with the lazy promotion.
-- Passwords, tokens and the parsing of numbers are libraries' and come in as `AuthPorts`; the site
-- configuration is present, and the cache is the in-memory one.
pub mod Account
pub mod Promotion
pub mod Lockout
pub mod Locked
pub mod Access
pub mod Revoked
use ferum_board.Prelude.{
  ℕ, ◌+◌, ◌*◌, String, Text, Bool, true, false, not, ◌&&◌, ◌||◌, Option, none, some, leb,
  if◌then◌else◌, is_none, unwrap_or,
}
use ferum_board.Prelude.Int.{ℤ, pos, negsuc, as_i64}
use ferum_board.Domain.Error.{Result, ok, err, unauthorized, forbidden, internal}
use ferum_board.Domain.User.{
  User, TrustLevel, basic, member, regular, is_account_locked, is_currently_banned,
}
use ferum_board.Exec.{Exec, pure, lift, fail, attempt, ask, swallow, refuse_if, ◌>>=◌, ◌>>◌}
use ferum_board.Exec.Cached.{cache_set}
use ferum_board.Repo.Users
use ferum_board.Repo.Config

-- `PasswordHasher` and `TokenService` of backend/crates/ferum-application/src/ports.rs, the keys that
-- are formatted for the cache, and `str::parse`. `add_minutes now m` is chrono's
-- `now + Duration::minutes(m)`: none where it panics, and 0 for a moment before the epoch.
pub record AuthPorts : Type 0 where
  pub verify : Text → String → Result Bool
  pub hash : Text → Result String
  pub mint_access_token : User → Result String
  pub mint_refresh_token : ℕ → Result String
  pub verify_refresh_token : String → Result ℕ
  pub verify_email_token : String → String → Result ℕ
  pub refresh_token_key : ℕ → String → String
  pub used_token_key : String → String
  pub refresh_token_ttl_secs : ℕ
  pub is_alphanumeric : ℕ → Bool
  pub parse_i32 : Text → Option ℤ
  pub parse_u64 : Text → Option ℕ
  pub add_minutes : ℕ → ℤ → Option ℕ

abbrev pub default_account_lockout_attempts : ℤ
default_account_lockout_attempts = pos 5

abbrev pub default_account_lockout_duration_minutes : ℕ
default_account_lockout_duration_minutes = 15

-- `.ok().flatten().and_then(|v| v.parse().ok()).unwrap_or(default)`.
abbrev pub parsed {ℓ} : {A : Type ℓ} → (Text → Option A) → Option (Option Text) → A → A
parsed parse (some (some v)) default = unwrap_or (parse v) default
parsed parse _ default = default

unfoldable pub get_config_i32 : AuthPorts → String → ℤ → Exec ℤ
unfolding ◌>>=◌
get_config_i32 ports key default = do
  v ← attempt (Config.get key)
  pure (parsed ports.parse_i32 v default)

unfoldable pub get_config_u64 : AuthPorts → String → ℕ → Exec ℕ
unfolding ◌>>=◌
get_config_u64 ports key default = do
  v ← attempt (Config.get key)
  pure (parsed ports.parse_u64 v default)

-- `count >= attempts`.
abbrev pub reaches : ℕ → ℤ → Bool
reaches count (pos k) = leb k count
reaches count (negsuc k) = true

-- A panic ends the request.
abbrev pub or_panic : Option ℕ → Result ℕ
or_panic none = err (internal "panic")
or_panic (some until) = ok until

unfoldable pub lock_account : AuthPorts → ℕ → Exec (Unit {0})
unfolding ◌>>=◌ get_config_u64 as_i64 Users.lock_until
lock_account ports id = do
  minutes ←
      get_config_u64 ports "account_lockout_duration_minutes"
        default_account_lockout_duration_minutes
  now ← ask (λ env. env.now)
  until ← lift (or_panic (ports.add_minutes now (as_i64 minutes)))
  Users.lock_until id until
  fail (forbidden "account_locked")

-- What a wrong password leads to.
unfoldable pub failed_login : AuthPorts → User → Exec (Unit {0})
unfolding ◌>>=◌ get_config_i32 lock_account Users.increment_failed_login
failed_login ports user = do
  count ← Users.increment_failed_login user.id
  lockout_attempts ←
      get_config_i32 ports "account_lockout_attempts" default_account_lockout_attempts
  if reaches count lockout_attempts then lock_account ports user.id else fail unauthorized

abbrev pub promotion : TrustLevel → (post_count days_visited trust_score : ℕ) → Option TrustLevel
promotion basic posts days score = if leb 30 posts && leb 15 days then some member else none
promotion member posts days score =
    if leb 500 posts && (leb 100 days && leb 80 score) then some regular else none
promotion _ posts days score = none

unfoldable pub evaluate_trust_promotion : User → Option TrustLevel
evaluate_trust_promotion u = promotion u.trust_level u.post_count u.days_visited u.trust_score

abbrev pub promoted : Option TrustLevel → User → Exec User
promoted none user = pure user
promoted (some level) user =
    Users.set_trust_level user.id level >> pure (Users.with_trust_level level user)

pub record LoginResult : Type 0 where
  pub user : User
  pub access_token : String
  pub refresh_token : String

-- The tokens of a user who may log in.
unfoldable pub open_session : AuthPorts → User → Exec LoginResult
unfolding ◌>>=◌ cache_set
open_session ports user = do
  access_token ← lift (ports.mint_access_token user)
  refresh_token ← lift (ports.mint_refresh_token user.id)
  cache_set (ports.refresh_token_key user.id refresh_token) "1"
      (ports.refresh_token_ttl_secs * 1000)
  pure (record { user = user; access_token = access_token; refresh_token = refresh_token })

-- What follows a right password.
unfoldable pub finish_login : AuthPorts → User → Exec LoginResult
unfolding ◌>>=◌ open_session evaluate_trust_promotion Users.reset_failed_login
    Users.update_last_seen
finish_login ports user = do
  refuse_if (not user.is_email_verified) (forbidden "email_not_verified")
  now ← ask (λ env. env.now)
  refuse_if (is_currently_banned user now) (forbidden "account_suspended")
  Users.reset_failed_login user.id
  swallow (Users.update_last_seen user.id)
  user' ← promoted (evaluate_trust_promotion user) user
  open_session ports user'

abbrev pub invalid_hash : String
invalid_hash = "$2b$12$invalidhashpaddinginvalidhashpa"

-- The password of an account that is not locked.
unfoldable pub check_password : AuthPorts → User → Text → Exec LoginResult
unfolding ◌>>=◌ failed_login finish_login
check_password ports user password = do
  valid ← lift (ports.verify password (unwrap_or user.password_hash invalid_hash))
  if is_none user.password_hash || not valid
      then failed_login ports user >> fail unauthorized
      else finish_login ports user

abbrev pub login_of : AuthPorts → Option User → Text → Exec LoginResult
login_of ports none password = fail unauthorized
login_of ports (some user) password = do
  now ← ask (λ env. env.now)
  if is_account_locked user now
      then fail (forbidden "account_locked")
      else check_password ports user password

-- The address comes in lower case.
unfoldable pub login : AuthPorts → String → Text → Exec LoginResult
unfolding ◌>>=◌ check_password Users.find_by_email
login ports email password = do user ← Users.find_by_email email; login_of ports user password
