-- ===== src/Repo/Roles.antt =====
-- Roles and their assignments: role_repository.rs, permission_repository.rs and user_role_repository.rs
-- of backend/crates/ferum-infrastructure/src/repositories, with the foreign keys and the unique indices
-- of backend/migration/src/m20260001_000014_create_rbac.rs.
use ferum_board.Prelude.{
  ℕ, ◌+◌, String, Bool, true, false, not, ◌&&◌, Option, none, some, List, [], ◌∷◌, ◌++◌, any, keep,
  map, ◌==◌, if◌then◌else◌, is_none, is_some, str_eq, find_row,
}
use ferum_board.Domain.Error.{Result, ok, err, not_found, conflict, forbidden, or_not_found}
use ferum_board.Domain.Role.{Role, UserRoleAssignment, is_expired}
use ferum_board.Store.{Db, Access}
use ferum_board.Exec.{Exec, step, read, write, pure, db_error, ◌>>=◌, ◌>>◌}
use ferum_board.Repo.Users

abbrev pub has_id : ℕ → Role → Bool
has_id id r = r.id == id

abbrev pub row : ℕ → Db → Option Role
row id db = find_row (has_id id) db.access.roles

abbrev pub with_access : Access → Db → Db
with_access a db = record db { access = a }

unfoldable pub find_by_slug : String → Exec (Option Role)
find_by_slug slug = read (λ db. ok (find_row (λ r. str_eq r.slug slug) db.access.roles))

unfoldable pub find_by_id : ℕ → Exec (Option Role)
find_by_id id = read (λ db. ok (row id db))

abbrev new_role : String → ℕ → Role
new_role slug id = record { id = id; slug = slug; is_system = false; is_default = false }

-- The slug is unique.
unfoldable pub create : String → Exec Role
create slug = step (λ env n db.
    if any (λ r. str_eq r.slug slug) db.access.roles
    then err db_error
    else ok (
      new_role slug (env.fresh n),
      with_access (record db.access { roles = new_role slug (env.fresh n) ∷ db.access.roles }) db,
    ))

-- A role that goes takes its permissions and its assignments with it: `ON DELETE CASCADE`.
abbrev pub without_role : ℕ → Access → Access
without_role id a = record a {
  roles = keep (λ r. not (r.id == id)) a.roles;
  role_permissions = keep (λ p. not (p.0 == id)) a.role_permissions;
  user_roles = keep (λ u. not (u.role_id == id)) a.user_roles;
}

abbrev pub deleted_role : Option Role → ℕ → Db → Result ((Unit {0}) × Db)
deleted_role none id db = err not_found
deleted_role (some r) id db =
    if r.is_system
    then err (forbidden "cannot_delete_system_role")
    else ok (tt, with_access (without_role id db.access) db)

unfoldable pub delete : ℕ → Exec (Unit {0})
delete id = step (λ env n db. deleted_role (row id db) id db)

-- The keys of a role.
unfoldable pub keys_of : ℕ → List (ℕ × String) → List String
keys_of role_id [] = []
keys_of role_id ((r, k) ∷ rows) =
    let rest = keys_of role_id rows in if r == role_id then k ∷ rest else rest

unfoldable pub list_for_role : ℕ → Exec (List String)
unfolding keys_of
list_for_role role_id = read (λ db. ok (keys_of role_id db.access.role_permissions))

-- The given keys that exist.
abbrev pub known_keys : List String → List String → List String
known_keys keys known = keep (λ k. any (λ x. str_eq x k) keys) known

unfoldable pub find_keys : List String → Exec (List String)
find_keys keys = read (λ db. ok (known_keys keys db.access.permissions))

-- The permissions of a role without their rows.
abbrev pub cleared : ℕ → Db → Db
cleared role_id db =
    with_access
      (record db.access {
        role_permissions = keep (λ p. not (p.0 == role_id)) db.access.role_permissions;
      })
      db

abbrev pub granted : ℕ → List String → Db → Db
granted role_id keys db =
    with_access
      (record db.access {
        role_permissions = map (λ k. (role_id, k)) keys ++ db.access.role_permissions;
      })
      db

unfoldable pub insert_keys : ℕ → List String → Exec (Unit {0})
insert_keys role_id [] = pure tt
insert_keys role_id (k ∷ keys) = write (granted role_id (k ∷ keys))

-- Three statements without a transaction: what the deletion has removed stays removed where the insertion
-- fails.
unfoldable pub set_role_permissions : ℕ → List String → Exec (Unit {0})
unfolding ◌>>=◌ find_keys insert_keys
set_role_permissions role_id keys = do
  known ← find_keys keys
  write (cleared role_id)
  insert_keys role_id known

abbrev pub same_category : Option ℕ → Option ℕ → Bool
same_category none none = true
same_category (some a) (some b) = a == b
same_category _ _ = false

-- The row that an assignment or a revocation names.
abbrev pub names : (user_id role_id : ℕ) → Option ℕ → UserRoleAssignment → Bool
names user_id role_id category_id a =
    a.user_id == user_id && (a.role_id == role_id && same_category a.category_id category_id)

abbrev pub new_assignment : (user_id role_id : ℕ) → Option ℕ → ℕ → Option ℕ → ℕ → UserRoleAssignment
new_assignment user_id role_id category_id granted_by expires_at id = record {
  id = id;
  user_id = user_id;
  role_id = role_id;
  category_id = category_id;
  granted_by = some granted_by;
  expires_at = expires_at;
}

abbrev pub insert_assignment : UserRoleAssignment → Db → Db
insert_assignment a db = with_access (record db.access { user_roles = a ∷ db.access.user_roles }) db

abbrev pub known_category : Option ℕ → Db → Bool
known_category none db = true
known_category (some c) db = any (λ x. x.id == c) db.categories

-- A row that exists already, expired or not, is a conflict; the user, the role and the category have
-- to exist.
unfoldable pub insert_row :
    (user_id role_id : ℕ) → Option ℕ → ℕ → Option ℕ → Exec UserRoleAssignment
insert_row user_id role_id category_id granted_by expires_at = step (λ env n db.
    let a = new_assignment user_id role_id category_id granted_by expires_at (env.fresh n) in
    if any (names user_id role_id category_id) db.access.user_roles
    then err (conflict "role_already_assigned")
    else if is_some (find_row (Users.has_id user_id) db.users)
        && (is_some (row role_id db) && known_category category_id db)
    then ok (a, insert_assignment a db)
    else err db_error)

-- The row of an identifier, joined to its role.
abbrev pub has_joined : ℕ → Db → UserRoleAssignment → Bool
has_joined id db a = a.id == id && is_some (row a.role_id db)

unfoldable pub fetch_row : ℕ → Exec UserRoleAssignment
fetch_row id = read (λ db. or_not_found (find_row (has_joined id db) db.access.user_roles))

-- Two statements without a transaction: the row stays where reading it back fails.
unfoldable pub assign : (user_id role_id : ℕ) → Option ℕ → ℕ → Option ℕ → Exec UserRoleAssignment
unfolding ◌>>=◌ insert_row fetch_row
assign user_id role_id category_id granted_by expires_at = do
  inserted ← insert_row user_id role_id category_id granted_by expires_at
  fetch_row inserted.id

abbrev pub without_rows : (UserRoleAssignment → Bool) → Db → Db
without_rows p db =
    with_access (record db.access { user_roles = keep (λ a. not (p a)) db.access.user_roles }) db

unfoldable pub revoke : (user_id role_id : ℕ) → Option ℕ → Exec (Unit {0})
revoke user_id role_id category_id = step (λ env n db.
    if any (names user_id role_id category_id) db.access.user_roles
    then ok (tt, without_rows (names user_id role_id category_id) db)
    else err not_found)

-- The assignments of a user that have not expired.
unfoldable pub live_for_user : (user_id now : ℕ) → List UserRoleAssignment → List UserRoleAssignment
live_for_user user_id now rows = keep (λ a. a.user_id == user_id && not (is_expired a now)) rows

-- `COUNT(DISTINCT user_id)`: how many different numbers a list has.
unfoldable pub count_distinct : List ℕ → ℕ
count_distinct [] = 0
count_distinct (n ∷ ns) =
    let rest = count_distinct ns in if any (λ m. m == n) ns then rest else 1 + rest

-- A global assignment of the role that has not expired.
abbrev pub holds_globally : (role_id now : ℕ) → UserRoleAssignment → Bool
holds_globally role_id now a =
    a.role_id == role_id && (is_none a.category_id && not (is_expired a now))

-- The entry of one role in `count_global_by_role`, zero where it has none.
unfoldable pub count_global : (role_id now : ℕ) → List UserRoleAssignment → ℕ
unfolding count_distinct
count_global role_id now rows =
    count_distinct (map (λ a. a.user_id) (keep (holds_globally role_id now) rows))

unfoldable pub count_global_by_role : ℕ → Exec ℕ
unfolding count_global
count_global_by_role role_id =
    step (λ env n db. ok (count_global role_id env.now db.access.user_roles, db))

unfoldable pub list_default : Exec (List Role)
list_default = read (λ db. ok (keep (λ r. r.is_default) db.access.roles))
