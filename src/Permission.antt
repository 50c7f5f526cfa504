-- ===== src/Permission.antt =====
-- backend/crates/ferum-application/src/permission.rs: what a user may do. `Utc::now()` is the argument
-- `now`.
pub mod Laws
pub mod Gates
use ferum_board.Prelude.{
  ℕ, String, Bool, true, false, not, ◌&&◌, ◌||◌, Option, none, some, ◌==◌, if◌then◌else◌,
}
use ferum_board.Prelude.Int.{ℤ}
use ferum_board.Domain.Error.{Result, ok, err, forbidden, not_found, unauthorized, ◌>>=◌, ◌>>◌}
use ferum_board.Domain.Perm
use ferum_board.Domain.User.{TrustLevel, basic, member, leader}
use ferum_board.Domain.AuthUser.{
  AuthUser, is_currently_banned, has_perm, has_perm_in, has_perm_any_category, meets_trust,
}
use ferum_board.Domain.Forum.{
  Post, Category, PostPolicy, ViewPolicy, public_view, members_only, staff_only_view, members,
  trusted, staff_only, closed, moderated, is_editable_by_author,
}

-- `if b { Ok(()) } else { Err(e) }`.
abbrev pub require : Bool → String → Result (Unit {0})
require b code = if b then ok tt else err (forbidden code)

abbrev denied : String
denied = "permission_denied"

unfoldable pub require_not_banned : AuthUser → ℕ → Result (Unit {0})
require_not_banned user now =
    if is_currently_banned user now then err (forbidden "account_suspended") else ok tt

unfoldable pub require_auth : Option AuthUser → Result AuthUser
require_auth none = err unauthorized
require_auth (some user) = ok user

abbrev view_as_member : Option AuthUser → Result (Unit {0})
view_as_member none = err unauthorized
view_as_member (some u) =
    require (has_perm u Perm.post_create || meets_trust u basic) "trust_level_insufficient"

abbrev view_as_staff : Option AuthUser → ℕ → Result (Unit {0})
view_as_staff none category_id = err not_found
view_as_staff (some u) category_id =
    if has_perm_in u Perm.mod_view_reports category_id || has_perm u Perm.admin_users
    then ok tt
    else err not_found

abbrev view_by_policy : ViewPolicy → Option AuthUser → ℕ → Result (Unit {0})
view_by_policy public_view user category_id = ok tt
view_by_policy members_only user category_id = view_as_member user
view_by_policy staff_only_view user category_id = view_as_staff user category_id

unfoldable pub can_view_category : Option AuthUser → Category → Result (Unit {0})
can_view_category user category = view_by_policy category.view_policy user category.id

abbrev is_staff_only_view : ViewPolicy → Bool
is_staff_only_view staff_only_view = true
is_staff_only_view _ = false

abbrev is_closed : PostPolicy → Bool
is_closed closed = true
is_closed _ = false

-- The minimum trust of a policy. The source has no case for `Closed`, which it rejected before.
abbrev category_min : PostPolicy → TrustLevel
category_min members = basic
category_min moderated = basic
category_min trusted = member
category_min staff_only = leader
category_min closed = leader

unfoldable pub can_create_post : AuthUser → Category → ℕ → Result (Unit {0})
unfolding require_not_banned
can_create_post user category now = do
  require_not_banned user now
  if is_staff_only_view category.view_policy
        && not (has_perm_in user Perm.mod_warn category.id)
        && not (has_perm user Perm.admin_users)
      then err not_found
      else if is_closed category.post_policy
      then err (forbidden "category_closed")
      else if not (has_perm_in user Perm.post_create category.id)
      then err (forbidden denied)
      else if not (has_perm_in user Perm.mod_warn category.id)
          && not (meets_trust user (category_min category.post_policy))
      then err (forbidden "trust_level_insufficient")
      else ok tt

abbrev is_ok : Result (Unit {0}) → Bool
is_ok (ok _) = true
is_ok (err _) = false

unfoldable pub user_can_create_post : Option AuthUser → Category → ℕ → Bool
user_can_create_post none category now = false
user_can_create_post (some u) category now = is_ok (can_create_post u category now)

unfoldable pub can_edit_post : AuthUser → Post → ℕ → ℤ → ℕ → Result (Unit {0})
unfolding require_not_banned
can_edit_post user post category_id edit_window_hours now = do
  require_not_banned user now
  if post.is_deleted
      then err not_found
      else if has_perm_in user Perm.thread_edit_any category_id
      then ok tt
      else if not (post.author_id == user.id)
      then err (forbidden "not_author")
      else if not (has_perm user Perm.post_edit_own)
      then err (forbidden denied)
      else require (is_editable_by_author post now edit_window_hours) "edit_window_expired"

unfoldable pub can_delete_post : AuthUser → Post → ℕ → ℕ → Result (Unit {0})
unfolding require_not_banned
can_delete_post user post category_id now = do
  require_not_banned user now
  if post.is_deleted
      then err not_found
      else if has_perm_in user Perm.post_delete_any category_id
      then ok tt
      else require (post.author_id == user.id && has_perm user Perm.post_delete_own) denied

unfoldable pub can_pin : AuthUser → ℕ → ℕ → Result (Unit {0})
unfolding require_not_banned
can_pin user category_id now = do
  require_not_banned user now
  require (has_perm_in user Perm.thread_pin category_id) denied

unfoldable pub can_lock : AuthUser → ℕ → ℕ → Result (Unit {0})
unfolding require_not_banned
can_lock user category_id now = do
  require_not_banned user now
  require (has_perm_in user Perm.thread_lock category_id) denied

unfoldable pub can_move : AuthUser → ℕ → ℕ → Result (Unit {0})
unfolding require_not_banned
can_move user category_id now = do
  require_not_banned user now
  require (has_perm_in user Perm.thread_move category_id) denied

-- `match category_id { Some(c) => has_perm_in(key, c), None => has_perm_any_category(key) }`.
abbrev in_or_any : AuthUser → String → Option ℕ → Bool
in_or_any user key none = has_perm_any_category user key
in_or_any user key (some c) = has_perm_in user key c

unfoldable pub can_view_reports : AuthUser → Option ℕ → Result (Unit {0})
can_view_reports user category_id =
    require (in_or_any user Perm.mod_view_reports category_id) denied

unfoldable pub can_resolve_report : AuthUser → Option ℕ → Result (Unit {0})
can_resolve_report user category_id = require (in_or_any user Perm.mod_resolve category_id) denied

unfoldable pub can_warn : AuthUser → Result (Unit {0})
can_warn user = require (has_perm user Perm.mod_warn) denied

unfoldable pub can_ban_temp : AuthUser → Result (Unit {0})
can_ban_temp user = require (has_perm user Perm.mod_ban_temp) denied

unfoldable pub can_ban_permanent : AuthUser → Result (Unit {0})
can_ban_permanent user = require (has_perm user Perm.admin_ban_permanent) denied

unfoldable pub can_upload : AuthUser → ℕ → Result (Unit {0})
unfolding require_not_banned
can_upload user now = do
  require_not_banned user now
  if not (has_perm user Perm.file_upload)
      then err (forbidden denied)
      else if not (has_perm user Perm.mod_warn) && not (meets_trust user member)
      then err (forbidden "trust_level_insufficient")
      else ok tt

unfoldable pub can_upload_profile_image : AuthUser → ℕ → Result (Unit {0})
unfolding require_not_banned
can_upload_profile_image user now = do
  require_not_banned user now
  require (meets_trust user basic) "trust_level_insufficient"

unfoldable pub can_manage_users : AuthUser → Result (Unit {0})
can_manage_users user = require (has_perm user Perm.admin_users) denied

unfoldable pub can_manage_categories : AuthUser → Result (Unit {0})
can_manage_categories user = require (has_perm user Perm.admin_categories) denied

unfoldable pub can_manage_roles : AuthUser → Result (Unit {0})
can_manage_roles user = require (has_perm user Perm.admin_roles) denied

unfoldable pub can_manage_config : AuthUser → Result (Unit {0})
can_manage_config user = require (has_perm user Perm.admin_config) denied

unfoldable pub can_manage_webhooks : AuthUser → Result (Unit {0})
can_manage_webhooks user = require (has_perm user Perm.admin_webhooks) denied

unfoldable pub can_manage_plugins : AuthUser → Result (Unit {0})
can_manage_plugins user = require (has_perm user Perm.admin_plugins) denied
