-- ===== src/RoleUseCase.antt =====
-- backend/crates/ferum-application/src/usecases/role_usecase.rs: roles, their permissions, and who holds
-- them. Names, descriptions, colours and positions are left out.
pub mod Holders
pub mod Admin
pub mod Requests
pub mod Failures
pub mod Grant
use ferum_board.Prelude.{
  ℕ, String, Bool, not, ◌||◌, Option, none, some, List, all, str_eq, leb, if◌then◌else◌,
}
use ferum_board.Domain.Error.{forbidden, or_not_found}
use ferum_board.Domain.AuthUser.{AuthUser, has_perm, has_perm_in}
use ferum_board.Domain.Role.{Role, UserRoleAssignment}
use ferum_board.Exec.{Exec, pure, lift, refuse_if, ◌>>=◌, ◌>>◌}
use ferum_board.Permission.{can_manage_roles, can_manage_users}
use ferum_board.Repo.Roles

pub record AssignRoleCmd : Type 0 where
  pub user_id : ℕ
  pub role_id : ℕ
  pub category_id : Option ℕ
  pub expires_at : Option ℕ

-- `find_by_id(id).await?.or_not_found()?`.
unfoldable pub some_role : ℕ → Exec Role
unfolding ◌>>=◌ Roles.find_by_id
some_role id = do role ← Roles.find_by_id id; lift (or_not_found role)

unfoldable pub create_role : AuthUser → String → Exec Role
unfolding can_manage_roles Roles.create
create_role actor slug = do lift (can_manage_roles actor); Roles.create slug

unfoldable pub delete_role : AuthUser → ℕ → Exec (Unit {0})
unfolding can_manage_roles Roles.delete
delete_role actor id = do lift (can_manage_roles actor); Roles.delete id

unfoldable pub get_role_permissions : AuthUser → ℕ → Exec (List String)
unfolding can_manage_roles some_role
get_role_permissions actor role_id = do
  lift (can_manage_roles actor)
  some_role role_id
  Roles.list_for_role role_id

-- The checks of `set_role_permissions`.
unfoldable pub prepare_set : AuthUser → ℕ → Exec (Unit {0})
unfolding can_manage_roles some_role
prepare_set actor role_id = do
  lift (can_manage_roles actor)
  role ← some_role role_id
  refuse_if role.is_system (forbidden "cannot_modify_system_role_permissions")

unfoldable pub set_role_permissions : AuthUser → ℕ → List String → Exec (Unit {0})
unfolding prepare_set
set_role_permissions actor role_id permission_keys = do
  prepare_set actor role_id
  Roles.set_role_permissions role_id permission_keys

-- Whether the actor holds a permission in the scope of an assignment.
abbrev pub holds : AuthUser → Option ℕ → String → Bool
holds actor (some category_id) key = has_perm actor key || has_perm_in actor key category_id
holds actor none key = has_perm actor key

-- The checks of `assign_role`.
unfoldable pub prepare_assign : AuthUser → AssignRoleCmd → Exec (Unit {0})
unfolding can_manage_users some_role
prepare_assign actor cmd = do
  lift (can_manage_users actor)
  some_role cmd.role_id
  role_perms ← Roles.list_for_role cmd.role_id
  refuse_if (not (all (holds actor cmd.category_id) role_perms))
      (forbidden "cannot_grant_permissions_you_lack")

unfoldable pub assign_role : AuthUser → AssignRoleCmd → Exec UserRoleAssignment
unfolding prepare_assign Roles.assign
assign_role actor cmd = do
  prepare_assign actor cmd
  Roles.assign cmd.user_id cmd.role_id cmd.category_id actor.id cmd.expires_at

abbrev pub guard_admin : ℕ → Option Role → Exec (Unit {0})
guard_admin role_id none = pure tt
guard_admin role_id (some role) =
    if str_eq role.slug "admin"
    then (Roles.count_global_by_role role_id
        >>= (λ n. refuse_if (leb n 1) (forbidden "cannot_remove_last_admin")))
    else pure tt

-- The check that the last global administrator stays.
abbrev pub guard_last_admin : ℕ → Option ℕ → Exec (Unit {0})
guard_last_admin role_id (some category_id) = pure tt
guard_last_admin role_id none = Roles.find_by_id role_id >>= guard_admin role_id

unfoldable pub revoke_role : AuthUser → (user_id role_id : ℕ) → Option ℕ → Exec (Unit {0})
unfolding can_manage_users Roles.revoke
revoke_role actor user_id role_id category_id = do
  lift (can_manage_users actor)
  guard_last_admin role_id category_id
  Roles.revoke user_id role_id category_id

-- The requests that change roles, as data, and the use case as the function that serves them.
pub data RoleRequest : Type 0 where
  create_request : (slug : String) → RoleRequest
  delete_request : (id : ℕ) → RoleRequest
  set_request : (role_id : ℕ) → List String → RoleRequest
  assign_request : AssignRoleCmd → RoleRequest
  revoke_request : (user_id role_id : ℕ) → Option ℕ → RoleRequest

unfoldable pub serve : AuthUser → RoleRequest → Exec (Unit {0})
unfolding create_role delete_role set_role_permissions assign_role revoke_role
serve actor (create_request slug) = create_role actor slug >> pure tt
serve actor (delete_request id) = delete_role actor id
serve actor (set_request role_id keys) = set_role_permissions actor role_id keys
serve actor (assign_request cmd) = assign_role actor cmd >> pure tt
serve actor (revoke_request user_id role_id c) = revoke_role actor user_id role_id c
