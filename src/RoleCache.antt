-- ===== src/RoleCache.antt =====
-- backend/crates/ferum-infrastructure/src/role_permission_cache.rs: the permissions of each role, held in
-- memory, and what a user's assignments come to. A hash map is the list of its entries, a hash set the
-- list of its elements.
pub mod Sets
pub mod Resolve
pub mod Session
pub mod Granted
use ferum_board.Prelude.{
  ℕ, String, Bool, Option, none, some, List, [], ◌∷◌, ◌++◌, str_eq, ◌==◌, if◌then◌else◌,
}
use ferum_board.Domain.AuthUser.{contains, get}
use ferum_board.Domain.Role.{UserRoleAssignment}
use ferum_board.Store.{Access}

abbrev pub Sets : Type 0
Sets = List (ℕ × List String)

-- `HashSet::insert` and `extend`.
unfoldable pub insert : String → List String → List String
insert key set = if contains set key then set else key ∷ set

unfoldable pub extend : List String → List String → List String
unfolding insert
extend set [] = set
extend set (k ∷ ks) = extend (insert k set) ks

-- `map.entry(id).or_default().extend(keys)`.
unfoldable pub extend_entry : ℕ → List String → Sets → Sets
unfolding extend
extend_entry id keys [] = (id, extend [] keys) ∷ []
extend_entry id keys ((k, v) ∷ m) =
    let rest = extend_entry id keys m in if k == id then (k, extend v keys) ∷ m else (k, v) ∷ rest

-- The roles that have a permission.
unfoldable pub roles_with : String → List (ℕ × String) → List ℕ
roles_with key [] = []
roles_with key ((r, k) ∷ rows) =
    let rest = roles_with key rows in if str_eq k key then r ∷ rest else rest

-- The rows of one permission in a left join: one without a role where no role has it.
abbrev pub rows_of : String → List ℕ → List (Option ℕ × String)
rows_of key [] = (none, key) ∷ []
rows_of key (r ∷ []) = (some r, key) ∷ []
rows_of key (r ∷ s ∷ rs) = (some r, key) ∷ rows_of key (s ∷ rs)

unfoldable pub joined : List String → List (ℕ × String) → List (Option ℕ × String)
unfolding roles_with
joined [] rows = []
joined (key ∷ keys) rows = rows_of key (roles_with key rows) ++ joined keys rows

abbrev pub insert_row : Option ℕ → String → Sets → Sets
insert_row none key m = m
insert_row (some r) key m = extend_entry r (key ∷ []) m

unfoldable pub perm_map : List (Option ℕ × String) → Sets → Sets
unfolding extend_entry
perm_map [] m = m
perm_map ((r, key) ∷ rows) m = perm_map rows (insert_row r key m)

-- The map that the query over the permissions and their roles builds.
unfoldable pub load : Access → Sets
unfolding joined perm_map
load a = perm_map (joined a.permissions a.role_permissions) []

abbrev pub extend_with : Option (List String) → List String → List String
extend_with none result = result
extend_with (some perms) result = extend result perms

abbrev pub global_keys : Sets → Option ℕ → ℕ → List String → List String
global_keys m none role_id result = extend_with (get m role_id) result
global_keys m (some c) role_id result = result

-- The keys that the global assignments add to a set.
unfoldable pub resolve_global : Sets → List UserRoleAssignment → List String → List String
unfolding extend get
resolve_global m [] result = result
resolve_global m (a ∷ rows) result =
    resolve_global m rows (global_keys m a.category_id a.role_id result)

abbrev pub extend_category : ℕ → Option (List String) → Sets → Sets
extend_category c none result = result
extend_category c (some perms) result = extend_entry c perms result

abbrev pub category_keys : Sets → Option ℕ → ℕ → Sets → Sets
category_keys m none role_id result = result
category_keys m (some c) role_id result = extend_category c (get m role_id) result

-- The keys that the scoped assignments add to the sets of the categories.
unfoldable pub resolve_category : Sets → List UserRoleAssignment → Sets → Sets
unfolding extend_entry get
resolve_category m [] result = result
resolve_category m (a ∷ rows) result =
    resolve_category m rows (category_keys m a.category_id a.role_id result)
