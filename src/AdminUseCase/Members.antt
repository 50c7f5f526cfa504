-- ===== src/AdminUseCase/Members.antt =====
-- backend/crates/ferum-application/src/usecases/admin_usecase.rs: bans, levels of trust, locks and addresses
-- of users, and the moderators of a category.
use ferum_board.Prelude.{ℕ, ◌-◌, Option, none, some, [], ◌∷◌, Text, is_none, if◌then◌else◌}
use ferum_board.Domain.Error.{or_not_found, internal, Result, ok, err}
use ferum_board.Domain.AuthUser.{AuthUser}
use ferum_board.Domain.Role.{Role, UserRoleAssignment}
use ferum_board.Domain.User.{User, TrustLevel}
use ferum_board.Store.{HookContext, Value, an_id, a_text, a_time, a_bool, null}
use ferum_board.Exec.{Exec, pure, lift, ask, before_hook, ◌>>=◌, ◌>>◌}
use ferum_board.Exec.Cached.{cache_del, cache_del_prefix, cache_set}
use ferum_board.Permission.{can_manage_users, can_ban_permanent}
use ferum_board.AdminUseCase.{some_category}
use ferum_board.Moderation.{BanKeys}
use ferum_board.Repo.Users
use ferum_board.Repo.Roles
use ferum_board.Repo.Audit

unfoldable pub some_user : ℕ → Exec User
unfolding ◌>>=◌ Users.find_by_id
some_user id = do found ← Users.find_by_id id; lift (or_not_found found)

-- A time of the JSON that may be null.
abbrev time_or_null : Option ℕ → Value
time_or_null none = null
time_or_null (some t) = a_time t

abbrev ban_ctx : AuthUser → ℕ → Text → Option ℕ → HookContext
ban_ctx actor id reason until = record {
  hook_name = "before_user_ban";
  actor_id = some actor.id;
  actor_trust_level = actor.trust_level;
  payload =
      ("target_user_id", an_id id)
      ∷ ("reason", a_text reason)
      ∷ ("until", time_or_null until)
      ∷ ("permanent", a_bool (is_none until))
      ∷ [];
}

-- The checks of `ban`.
unfoldable pub prepare_ban : AuthUser → ℕ → Text → Option ℕ → Exec (Unit {0})
unfolding ◌>>=◌ can_ban_permanent some_user
prepare_ban actor id reason until = do
  lift (can_ban_permanent actor)
  some_user id
  before_hook (ban_ctx actor id reason until)

-- A year, in milliseconds.
abbrev pub year_ms : ℕ
year_ms = 31536000000

-- How long the mark of a ban lasts: a difference below zero is none at all.
abbrev pub ban_ttl : ℕ → Option ℕ → ℕ
ban_ttl now none = year_ms
ban_ttl now (some until) = until - now

-- What a ban does to the cache.
unfoldable pub end_sessions : BanKeys → ℕ → Option ℕ → Exec (Unit {0})
unfolding ◌>>=◌ cache_set cache_del_prefix cache_del
end_sessions keys id until = do
  now ← ask (λ env. env.now)
  cache_set (keys.banned_key id) "1" (ban_ttl now until)
  cache_del_prefix (keys.is_refresh_key id)
  cache_del (keys.roles_key id)

unfoldable pub ban : BanKeys → AuthUser → ℕ → Text → Option ℕ → Exec (Unit {0})
unfolding ◌>>=◌ prepare_ban Users.update_ban end_sessions Audit.log
ban keys actor id reason until = do
  prepare_ban actor id reason until
  Users.update_ban id until
  end_sessions keys id until
  Audit.log actor.id (if is_none until then "user.ban_permanent" else "user.ban_temp") "user" id

unfoldable pub permanent_ban : BanKeys → AuthUser → ℕ → Text → Exec (Unit {0})
unfolding ban
permanent_ban keys actor id reason = ban keys actor id reason none

unfoldable pub unban : BanKeys → AuthUser → ℕ → Exec (Unit {0})
unfolding ◌>>=◌ can_ban_permanent some_user Users.lift_ban cache_del Audit.log
unban keys actor id = do
  lift (can_ban_permanent actor)
  some_user id
  Users.lift_ban id
  cache_del (keys.banned_key id)
  Audit.log actor.id "user.unban" "user" id

unfoldable pub set_trust_level : AuthUser → ℕ → TrustLevel → Exec (Unit {0})
unfolding ◌>>=◌ can_manage_users some_user Users.set_trust_level Audit.log
set_trust_level actor id level = do
  lift (can_manage_users actor)
  some_user id
  Users.set_trust_level id level
  Audit.log actor.id "user.set_trust_level" "user" id

unfoldable pub unlock_user : AuthUser → ℕ → Exec (Unit {0})
unfolding ◌>>=◌ can_manage_users some_user Users.reset_failed_login
unlock_user actor id = do lift (can_manage_users actor); some_user id; Users.reset_failed_login id

unfoldable pub verify_user_email : AuthUser → ℕ → Exec (Unit {0})
unfolding ◌>>=◌ can_manage_users some_user Users.set_email_verified
verify_user_email actor id = do
  lift (can_manage_users actor)
  some_user id
  Users.set_email_verified id

abbrev role_or_internal : Option Role → Result Role
role_or_internal none = err (internal "moderator role not found")
role_or_internal (some r) = ok r

unfoldable pub moderator_role : Exec Role
unfolding ◌>>=◌ Roles.find_by_slug
moderator_role = do found ← Roles.find_by_slug "moderator"; lift (role_or_internal found)

unfoldable pub assign_moderator : AuthUser → (category_id user_id : ℕ) → Exec UserRoleAssignment
unfolding ◌>>=◌ can_manage_users some_category some_user moderator_role Roles.assign Audit.log
assign_moderator actor category_id user_id = do
  lift (can_manage_users actor)
  some_category category_id
  some_user user_id
  role ← moderator_role
  assignment ← Roles.assign user_id role.id (some category_id) actor.id none
  Audit.log actor.id "moderator.assign" "user" user_id
  pure assignment

unfoldable pub revoke_moderator : BanKeys → AuthUser → (category_id user_id : ℕ) → Exec (Unit {0})
unfolding ◌>>=◌ can_manage_users moderator_role Roles.revoke cache_del Audit.log
revoke_moderator keys actor category_id user_id = do
  lift (can_manage_users actor)
  role ← moderator_role
  Roles.revoke user_id role.id (some category_id)
  cache_del (keys.roles_key user_id)
  Audit.log actor.id "moderator.revoke" "user" user_id
