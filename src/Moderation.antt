-- ===== src/Moderation.antt =====
-- backend/crates/ferum-application/src/usecases/moderation_usecase.rs: reports, warnings and bans. The
-- lists of reports and the audit log are left out.
pub mod Scope
pub mod Queue
pub mod Bans
pub mod Banned
use ferum_board.Prelude.{
  ℕ, ◌+◌, ◌-◌, String, Bool, true, false, not, ◌&&◌, Option, none, some, [], ◌∷◌, Text, is_none,
  ltb, leb, if◌then◌else◌,
}
use ferum_board.Prelude.Int.{ℤ, negsuc}
use ferum_board.Domain.Error.{Result, ok, err, or_not_found, forbidden, unprocessable_entity}
use ferum_board.Domain.Perm
use ferum_board.Domain.User.{basic}
use ferum_board.Domain.AuthUser.{AuthUser, has_perm, meets_trust}
use ferum_board.Domain.Forum.{Post, Thread}
use ferum_board.Domain.Review.{Report, ReportStatus, is_pending}
use ferum_board.Domain.Event.{user_banned, user_warned}
use ferum_board.Store.{HookContext, an_id, a_text, a_time, a_bool}
use ferum_board.Exec.{
  Exec, pure, lift, fail, ask, swallow, refuse_if, before_hook, publish, ◌>>=◌, ◌>>◌,
}
use ferum_board.Exec.Cached.{cache_del, cache_del_prefix, cache_set}
use ferum_board.Permission.{require_not_banned, can_resolve_report, can_warn, can_ban_temp}
use ferum_board.Repo.Posts
use ferum_board.Repo.Threads
use ferum_board.Repo.Users
use ferum_board.Repo.Reports
use ferum_board.Text.{byte_len}

pub record CreateReportCmd : Type 0 where
  pub post_id : Option ℕ
  pub thread_id : Option ℕ
  pub reason : Text

abbrev pub check_post : Option ℕ → Exec (Unit {0})
check_post none = pure tt
check_post (some id) = do p ← Posts.find_by_id id; post ← lift (or_not_found p); pure tt

abbrev pub check_thread : Option ℕ → Exec (Unit {0})
check_thread none = pure tt
check_thread (some id) = do t ← Threads.find_by_id id; thread ← lift (or_not_found t); pure tt

unfoldable pub create_report : AuthUser → CreateReportCmd → Exec Report
unfolding ◌>>=◌ Reports.create require_not_banned
create_report actor cmd = do
  now ← ask (λ env. env.now)
  lift (require_not_banned actor now)
  refuse_if (not (has_perm actor Perm.report_create)) (forbidden "permission_denied")
  refuse_if (not (meets_trust actor basic)) (forbidden "trust_level_insufficient")
  refuse_if (is_none cmd.post_id && is_none cmd.thread_id)
      (unprocessable_entity "post_id or thread_id is required")
  check_post cmd.post_id
  check_thread cmd.thread_id
  Reports.create actor.id cmd.post_id cmd.thread_id cmd.reason

abbrev pub category_of : Option Thread → Option ℕ
category_of none = none
category_of (some t) = some t.category_id

abbrev pub thread_category : ℕ → Exec (Option ℕ)
thread_category id = do t ← Threads.find_by_id id; pure (category_of t)

abbrev pub post_category : Option Post → Exec (Option ℕ)
post_category none = pure none
post_category (some p) = thread_category p.thread_id

abbrev pub target_category : Option ℕ → Option ℕ → Exec (Option ℕ)
target_category (some thread_id) post_id = thread_category thread_id
target_category none (some post_id) = Posts.find_by_id post_id >>= post_category
target_category none none = pure none

unfoldable pub report_category_id : Report → Exec (Option ℕ)
unfolding ◌>>=◌ Posts.find_by_id Threads.find_by_id
report_category_id report = target_category report.thread_id report.post_id

-- The check against the category of the report's target, if it still has one.
abbrev pub authorize : AuthUser → Option ℕ → Result (Unit {0})
authorize actor (some c) = can_resolve_report actor (some c)
authorize actor none =
    if has_perm actor Perm.mod_resolve then ok tt else err (forbidden "permission_denied")

-- The checks of `resolve_report`.
unfoldable pub prepare_resolve : AuthUser → ℕ → Exec (Unit {0})
unfolding ◌>>=◌ can_resolve_report report_category_id Reports.find_by_id
prepare_resolve actor report_id = do
  lift (can_resolve_report actor none)
  found ← Reports.find_by_id report_id
  report ← lift (or_not_found found)
  category ← report_category_id report
  lift (authorize actor category)
  refuse_if (not (is_pending report.status))
      (unprocessable_entity "Report has already been resolved")

unfoldable pub resolve_report : AuthUser → ℕ → ReportStatus → Option Text → Exec (Unit {0})
unfolding ◌>>=◌ prepare_resolve Reports.update_status cache_del
resolve_report actor report_id status moderator_notes = do
  prepare_resolve actor report_id
  Reports.update_status report_id status actor.id moderator_notes
  cache_del "stats:dashboard"

abbrev pub max_ban_reason_len : ℕ
max_ban_reason_len = 1000

-- The checks of `warn_user`.
unfoldable pub prepare_warn : AuthUser → ℕ → Text → Exec (Unit {0})
unfolding ◌>>=◌ can_warn Users.find_by_id
prepare_warn actor user_id reason = do
  refuse_if (ltb max_ban_reason_len (byte_len reason))
      (unprocessable_entity "Reason must be 1 000 characters or fewer")
  lift (can_warn actor)
  found ← Users.find_by_id user_id
  user ← lift (or_not_found found)
  pure tt

unfoldable pub warn_user : AuthUser → ℕ → Text → Exec (Unit {0})
unfolding ◌>>=◌ prepare_warn Users.update_warn_count Reports.notify Users.increment_trust_score
warn_user actor user_id reason = do
  prepare_warn actor user_id reason
  Users.update_warn_count user_id
  Reports.notify user_id reason
  publish (user_warned user_id actor.id reason)
  swallow (Users.increment_trust_score user_id (negsuc 4))

abbrev ban_ctx : AuthUser → ℕ → Text → ℕ → HookContext
ban_ctx actor user_id reason until = record {
  hook_name = "before_user_ban";
  actor_id = some actor.id;
  actor_trust_level = actor.trust_level;
  payload =
      ("target_user_id", an_id user_id)
      ∷ ("reason", a_text reason)
      ∷ ("until", a_time until)
      ∷ ("permanent", a_bool false)
      ∷ [];
}

-- The checks of `temp_ban`.
unfoldable pub prepare_ban : AuthUser → ℕ → Text → ℕ → Exec (Unit {0})
unfolding ◌>>=◌ can_ban_temp Users.find_by_id
prepare_ban actor user_id reason until = do
  refuse_if (ltb max_ban_reason_len (byte_len reason))
      (unprocessable_entity "Reason must be 1 000 characters or fewer")
  lift (can_ban_temp actor)
  found ← Users.find_by_id user_id
  user ← lift (or_not_found found)
  before_hook (ban_ctx actor user_id reason until)

-- The keys of the cache that concern a user, as the code formats them, and the test for the prefix of
-- the refresh tokens.
pub record BanKeys : Type 0 where
  pub banned_key : ℕ → String
  pub roles_key : ℕ → String
  pub is_refresh_key : ℕ → String → Bool

-- What a ban does to the cache.
unfoldable pub end_sessions : BanKeys → ℕ → ℕ → Exec (Unit {0})
unfolding ◌>>=◌ cache_set cache_del_prefix cache_del
end_sessions keys user_id until = do
  now ← ask (λ env. env.now)
  if ltb now until then cache_set (keys.banned_key user_id) "1" (until - now) else pure tt
  cache_del_prefix (keys.is_refresh_key user_id)
  cache_del (keys.roles_key user_id)

unfoldable pub temp_ban : BanKeys → AuthUser → ℕ → Text → ℕ → Exec (Unit {0})
unfolding ◌>>=◌ prepare_ban Users.update_ban end_sessions
temp_ban keys actor user_id reason until = do
  prepare_ban actor user_id reason until
  Users.update_ban user_id (some until)
  end_sessions keys user_id until
  publish (user_banned user_id actor.id reason (some until))
