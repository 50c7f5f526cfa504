-- ===== src/Tests/Staff.antt =====
-- Roles and the permissions that they give, on a small forum.
use ferum_board.Prelude.{
  ℕ, String, ◌≡◌, refl, ◌⊎◌, arith, true, false, Option, none, some, List, [], ◌∷◌, any,
}
use ferum_board.Domain.Error.{ok, forbidden}
use ferum_board.Domain.AuthUser.{AuthUser, has_perm_in, permitted_category_ids}
use ferum_board.Domain.AuthUser.Scope.{allows}
use ferum_board.Domain.Role.{Role, UserRoleAssignment}
use ferum_board.Store.{Db, Env}
use ferum_board.Exec.{World}
use ferum_board.Repo.Roles.{live_for_user}
use ferum_board.RoleCache.{load}
use ferum_board.RoleCache.Session.{resolved, with_permissions, resolve_permissions}
use ferum_board.RoleCache.Granted.{
  grants, scope_of_resolved, outcome_of, resolve_permissions-on_miss, resolve_permissions-again,
}
use ferum_board.RoleUseCase.{AssignRoleCmd, assign_role, revoke_request, serve}
use ferum_board.RoleUseCase.Admin.{HasAdmin}
use ferum_board.RoleUseCase.Requests.{serve-HasAdmin}
use ferum_board.RoleUseCase.Failures.{MayLeave, serve-MayLeave}
use ferum_board.RoleUseCase.Grant.{assign_role_adds}
use ferum_board.Tests.Data.{alice, morgan, forum, quiet}

abbrev boss : AuthUser
boss = record alice { permissions = "admin.users" ∷ "post.edit_own" ∷ [] }

abbrev admin_role : Role
admin_role = record { id = 30; slug = "admin"; is_system = true; is_default = false }

abbrev editor_role : Role
editor_role = record { id = 31; slug = "editor"; is_system = false; is_default = false }

abbrev first_admin : UserRoleAssignment
first_admin = record {
  id = 50;
  user_id = 1;
  role_id = 30;
  category_id = none;
  granted_by = none;
  expires_at = none;
}

abbrev an_editor : UserRoleAssignment
an_editor = record first_admin { id = 51; user_id = 2; role_id = 31; category_id = some 5 }

abbrev staffed : Db
staffed = record forum {
  access = record {
    roles = admin_role ∷ editor_role ∷ [];
    permissions = "admin.users" ∷ "post.edit_own" ∷ [];
    role_permissions = (30, "admin.users") ∷ (31, "post.edit_own") ∷ [];
    user_roles = first_admin ∷ an_editor ∷ [];
  };
}

abbrev office : World
office = record { db = staffed; calls = 0 }

scope_of_resolved_example :
    allows
      (permitted_category_ids
        (with_permissions (resolved (load staffed.access) staffed.access.user_roles) morgan)
        "post.edit_own")
      5
    ≡ any (grants staffed.access "post.edit_own" 5) staffed.access.user_roles
scope_of_resolved_example =
    scope_of_resolved staffed.access staffed.access.user_roles morgan "post.edit_own" 5

abbrev key_of : ℕ → String
key_of id = "user:roles"

abbrev print_rows : List UserRoleAssignment → String
print_rows rows = "rows"

abbrev parse_rows : String → Option (List UserRoleAssignment)
parse_rows s = some (an_editor ∷ [])

resolve_permissions-on_miss_example :
    has_perm_in
      (with_permissions
        (outcome_of
          (resolve_permissions key_of print_rows parse_rows (load staffed.access) 2 quiet office).0)
        morgan)
      "post.edit_own"
      5
    ≡ any (grants staffed.access "post.edit_own" 5) (live_for_user 2 200 staffed.access.user_roles)
unfolding ferum_board.Infra.Cache.get ferum_board.Infra.Cache.lookup
resolve_permissions-on_miss_example =
    resolve_permissions-on_miss key_of print_rows parse_rows staffed.access 2 quiet office morgan
      "post.edit_own" 5 refl refl

abbrev later : Env
later = record quiet { now = 300 }

-- The roles are gone, and the permissions stay.
resolve_permissions-again_example :
    (resolve_permissions key_of print_rows parse_rows (load staffed.access) 2 later (record {
      db = record forum {
        cache =
            (resolve_permissions key_of print_rows parse_rows
              (load staffed.access)
              2
              quiet
              office).1.db.cache;
      };
      calls = 0;
    })).0
    ≡ ok (resolved (load staffed.access) (an_editor ∷ []))
unfolding ferum_board.Infra.Cache.get ferum_board.Infra.Cache.lookup live_for_user
    ferum_board.Domain.Role.is_expired
resolve_permissions-again_example =
    resolve_permissions-again key_of print_rows parse_rows (load staffed.access)
      (load staffed.access) 2 quiet later office _ refl refl refl (omega arith) (omega arith)

one_admin : HasAdmin 30 200 staffed
unfolding ferum_board.Prelude.find_row ferum_board.Domain.Role.is_expired
one_admin = record { role = admin_role; found = refl; admin = refl; system = refl; live = refl }

serve-HasAdmin_example : HasAdmin 30 200 (serve boss (revoke_request 1 30 none) quiet office).1.db
serve-HasAdmin_example =
    serve-HasAdmin 30 quiet office boss (revoke_request 1 30 none) (λ n. ground arith) one_admin

-- The last administrator cannot be revoked.
serve-MayLeave_example :
    MayLeave boss
      (revoke_request 1 30 none)
      staffed
      (serve boss (revoke_request 1 30 none) quiet office).1.db
unfolding serve ferum_board.RoleUseCase.revoke_role ferum_board.Exec.◌>>=◌ ferum_board.Exec.lift
    ferum_board.Permission.can_manage_users ferum_board.Domain.AuthUser.has_perm
    ferum_board.Domain.AuthUser.contains ferum_board.Repo.Roles.find_by_id ferum_board.Exec.read
    ferum_board.Exec.step ferum_board.Prelude.find_row ferum_board.Repo.Roles.count_global_by_role
    ferum_board.Repo.Roles.count_global ferum_board.Repo.Roles.count_distinct
    ferum_board.Domain.Role.is_expired ferum_board.Exec.refuse_if ferum_board.Exec.pure
serve-MayLeave_example =
    serve-MayLeave quiet office boss (revoke_request 1 30 none)
      (forbidden "cannot_remove_last_admin") refl

abbrev make_editor : AssignRoleCmd
make_editor = record { user_id = 1; role_id = 31; category_id = none; expires_at = none }

assign_role_adds_example :
    (any (grants staffed.access "post.edit_own" 5) (live_for_user 1 200 staffed.access.user_roles)
      ≡ true)
    ⊎ (has_perm_in boss "post.edit_own" 5 ≡ true)
unfolding assign_role ferum_board.RoleUseCase.prepare_assign ferum_board.RoleUseCase.some_role
    ferum_board.Exec.◌>>=◌ ferum_board.Exec.lift ferum_board.Permission.can_manage_users
    ferum_board.Domain.AuthUser.has_perm ferum_board.Domain.AuthUser.contains
    ferum_board.Repo.Roles.find_by_id ferum_board.Exec.read ferum_board.Exec.step
    ferum_board.Prelude.find_row ferum_board.Repo.Roles.list_for_role ferum_board.Repo.Roles.keys_of
    ferum_board.Domain.Role.is_expired ferum_board.Exec.refuse_if ferum_board.Repo.Roles.assign
    live_for_user
assign_role_adds_example =
    assign_role_adds quiet office (assign_role boss make_editor quiet office).1 boss make_editor
      (record {
        id = 1002;
        user_id = 1;
        role_id = 31;
        category_id = none;
        granted_by = some 1;
        expires_at = none;
      })
      1 200 "post.edit_own" 5 refl refl
