-- ===== src/Auth/Account.antt =====
-- `register`, `verify_email`, `refresh_access_token`, `logout` and `reset_password` of
-- backend/crates/ferum-application/src/usecases/auth_usecase.rs, and the validators that they use, of
-- backend/crates/ferum-application/src/validators/mod.rs. A job that is queued is a call that may fail.
use ferum_board.Prelude.{
  ℕ, ◌+◌, ◌*◌, String, Text, Bool, true, false, not, ◌&&◌, ◌||◌, Option, none, some, [], ◌∷◌, any,
  all, leb, ltb, ◌==◌, if◌then◌else◌, is_some,
}
use ferum_board.Domain.Error.{
  Result, ok, err, unauthorized, forbidden, conflict, unprocessable_entity, or_not_found,
}
use ferum_board.Domain.User.{User, new, basic, is_currently_banned}
use ferum_board.Domain.Role.{Role}
use ferum_board.Store.{HookContext, a_text}
use ferum_board.Exec.{
  Exec, pure, lift, ask, read, swallow, refuse_if, each, before_hook, ◌>>=◌, ◌>>◌,
}
use ferum_board.Exec.Cached.{cache_del, cache_exists, cache_set_nx}
use ferum_board.Text.{byte_len, codes, text_eq}
use ferum_board.Repo.Users
use ferum_board.Repo.Roles
use ferum_board.Repo.Config
use ferum_board.Auth.{AuthPorts}

abbrev underscore : ℕ
underscore = 95

abbrev hyphen : ℕ
hyphen = 45

unfoldable pub validate_username : (ℕ → Bool) → Text → Bool
validate_username is_alphanumeric s =
    not (ltb (byte_len s) 3 || ltb 30 (byte_len s))
    && all (λ c. is_alphanumeric c || (c == underscore || c == hyphen)) s

abbrev is_ascii_digit : ℕ → Bool
is_ascii_digit c = leb 48 c && leb c 57

unfoldable pub validate_password : (ℕ → Bool) → Text → Bool
validate_password is_alphanumeric s =
    not (ltb (byte_len s) 8) && (any is_ascii_digit s && any (λ c. not (is_alphanumeric c)) s)

abbrev register_ctx : Text → Text → HookContext
register_ctx name email = record {
  hook_name = "before_user_register";
  actor_id = none;
  actor_trust_level = new;
  payload = ("username", a_text name) ∷ ("email", a_text email) ∷ [];
}

unfoldable pub enqueue : Exec (Unit {0})
enqueue = read (λ db. ok tt)

-- Sending the token, or verifying the address at once where no mail is configured.
abbrev pub verify_or_send : Bool → User → Exec (Unit {0})
verify_or_send true user = Users.set_email_verified user.id >> Users.set_trust_level user.id basic
verify_or_send false user = enqueue

-- Where the setting is absent, users may register.
unfoldable pub may_register : Option Text → Bool
may_register none = true
may_register (some v) = text_eq v (codes "true")

-- The checks of `register`. The address comes in lower case, as a string and as a text.
unfoldable pub prepare_register : AuthPorts → Text → String → Text → Text → Exec String
unfolding ◌>>=◌ Config.get may_register validate_username validate_password Users.find_by_email
    Users.find_by_username
prepare_register ports name email email_text password = do
  registration_open ← Config.get "registration_open"
  refuse_if (not (may_register registration_open)) (forbidden "registration_closed")
  refuse_if (not (validate_username ports.is_alphanumeric name))
      (unprocessable_entity "Username must be 3–30 chars, alphanumeric/underscore/hyphen")
  refuse_if (not (validate_password ports.is_alphanumeric password)) (
      unprocessable_entity
        "Password must be at least 8 characters and include at least one digit and one special character")
  by_email ← Users.find_by_email email
  refuse_if (is_some by_email) (conflict "registration_conflict")
  by_name ← Users.find_by_username name
  refuse_if (is_some by_name) (conflict "registration_conflict")
  before_hook (register_ctx name email_text)
  lift (ports.hash password)

unfoldable pub assign_default : User → Role → Exec (Unit {0})
unfolding Roles.assign
assign_default user role = swallow (Roles.assign user.id role.id none user.id none)

unfoldable pub finish_register : Bool → User → Exec User
unfolding ◌>>=◌ Roles.list_default assign_default enqueue
finish_register auto_verify_email user = do
  default_roles ← Roles.list_default
  each (assign_default user) default_roles
  verify_or_send auto_verify_email user
  pure user

unfoldable pub register : AuthPorts → Bool → Text → String → Text → Text → Exec User
unfolding ◌>>=◌ prepare_register Users.create finish_register
register ports auto_verify_email name email email_text password = do
  hash ← prepare_register ports name email email_text password
  user ← Users.create name email hash
  finish_register auto_verify_email user

-- `map_err(|_| AppError::forbidden("invalid_or_expired_token"))`.
abbrev pub token_of : Result ℕ → Result ℕ
token_of (ok id) = ok id
token_of (err _) = err (forbidden "invalid_or_expired_token")

unfoldable pub verify_email : AuthPorts → String → Exec (Unit {0})
unfolding ◌>>=◌ Users.find_by_id Users.set_email_verified Users.set_trust_level
verify_email ports token = do
  user_id ← lift (token_of (ports.verify_email_token token "email_verification"))
  found ← Users.find_by_id user_id
  user ← lift (or_not_found found)
  if user.is_email_verified
      then pure tt
      else Users.set_email_verified user_id >> Users.set_trust_level user_id basic

-- `ok_or(AppError::Unauthorized)`.
abbrev pub or_unauthorized : Option User → Result User
or_unauthorized none = err unauthorized
or_unauthorized (some u) = ok u

-- What `refresh_access_token` does for a token that is in the cache.
unfoldable pub refresh_for : AuthPorts → ℕ → Exec String
unfolding ◌>>=◌ Users.find_by_id Users.update_last_seen
refresh_for ports user_id = do
  found ← Users.find_by_id user_id
  user ← lift (or_unauthorized found)
  now ← ask (λ env. env.now)
  refuse_if (is_currently_banned user now) (forbidden "account_suspended")
  swallow (Users.update_last_seen user_id)
  lift (ports.mint_access_token user)

abbrev pub refresh_if_live : AuthPorts → ℕ → Bool → Exec String
refresh_if_live ports user_id live = refuse_if (not live) unauthorized >> refresh_for ports user_id

abbrev pub refresh_user : AuthPorts → String → ℕ → Exec String
refresh_user ports refresh_token user_id =
    cache_exists (ports.refresh_token_key user_id refresh_token) >>= refresh_if_live ports user_id

unfoldable pub refresh_access_token : AuthPorts → String → Exec String
unfolding ◌>>=◌ cache_exists refresh_for
refresh_access_token ports refresh_token =
    lift (ports.verify_refresh_token refresh_token) >>= refresh_user ports refresh_token

unfoldable pub logout : AuthPorts → ℕ → String → Exec (Unit {0})
unfolding cache_del
logout ports user_id refresh_token = cache_del (ports.refresh_token_key user_id refresh_token)

-- `PASSWORD_RESET_TOKEN_TTL_SECS + 60`, in milliseconds.
abbrev pub used_token_ttl : ℕ
used_token_ttl = (3600 + 60) * 1000

-- The checks of `reset_password`, of which the last uses the token up.
unfoldable pub claim_token : AuthPorts → String → Text → Exec ℕ
unfolding ◌>>=◌ validate_password cache_set_nx
claim_token ports token new_password = do
  refuse_if (not (validate_password ports.is_alphanumeric new_password)) (
      unprocessable_entity
        "Password must be at least 8 characters and include at least one digit and one special character")
  user_id ← lift (token_of (ports.verify_email_token token "password_reset"))
  claimed ← cache_set_nx (ports.used_token_key token) "1" used_token_ttl
  refuse_if (not claimed) (forbidden "token_already_used")
  pure user_id

unfoldable pub reset_password : AuthPorts → String → Text → Exec (Unit {0})
unfolding ◌>>=◌ claim_token Users.set_password_hash
reset_password ports token new_password = do
  user_id ← claim_token ports token new_password
  hash ← lift (ports.hash new_password)
  Users.set_password_hash user_id hash
