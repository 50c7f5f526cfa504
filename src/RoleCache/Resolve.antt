-- ===== src/RoleCache/Resolve.antt =====
-- What the loaded map and the resolved sets hold, in terms of the tables.
use ferum_board.Prelude.{
  ℕ, String, ◌≡◌, refl, Bool, true, false, ◌||◌, ◌&&◌, Option, none, some, List, [], ◌∷◌, ◌++◌,
  arith, any, str_eq, ◌==◌,
}
use ferum_board.Domain.AuthUser.{contains, contains_in, get}
use ferum_board.Domain.Role.{UserRoleAssignment}
use ferum_board.Store.{Access}
use ferum_board.Repo.Roles.{keys_of}
use ferum_board.RoleCache.{
  Sets, roles_with, rows_of, joined, insert_row, perm_map, load, global_keys, extend_with,
  extend_category, resolve_global, category_keys, resolve_category,
}
use ferum_board.RoleCache.Sets.{has_key, has_key-extend_entry, contains-extend, contains_same}

-- Whether a row of the join gives the role the key.
abbrev gives : ℕ → String → Option ℕ × String → Bool
gives r key (none, k) = false
gives r key (some i, k) = (i == r) && str_eq k key

any-gives-++ :
    (r : ℕ) (key : String) (xs ys : List (Option ℕ × String))
    → any (gives r key) (xs ++ ys) ≡ (any (gives r key) xs || any (gives r key) ys)
any-gives-++ r key [] ys = refl
any-gives-++ r key (x ∷ xs) ys = ground (arith, any-gives-++ r key xs ys)

any-rows_of :
    (r : ℕ) (key k : String) (rs : List ℕ)
    → any (gives r key) (rows_of k rs) ≡ (str_eq k key && any (λ i. i == r) rs)
any-rows_of r key k [] = ground arith
any-rows_of r key k (i ∷ []) = ground arith
any-rows_of r key k (i ∷ j ∷ rs) = ground (arith, any-rows_of r key k (j ∷ rs))

any-roles_with :
    (r : ℕ) (key : String) (rows : List (ℕ × String))
    → any (λ i. i == r) (roles_with key rows) ≡ contains (keys_of r rows) key
unfolding roles_with keys_of contains
any-roles_with r key [] = refl
any-roles_with r key ((i, k) ∷ rows) = ground (arith, any-roles_with r key rows)

row_of_key :
    (r : ℕ) (key k : String) (rows : List (ℕ × String))
    → (str_eq k key && any (λ i. i == r) (roles_with k rows))
      ≡ (str_eq k key && contains (keys_of r rows) key)
row_of_key r key k rows =
    ground (arith, any-roles_with r k rows, contains_same (keys_of r rows) k key)

any-joined :
    (r : ℕ) (key : String) (keys : List String) (rows : List (ℕ × String))
    → any (gives r key) (joined keys rows) ≡ (contains keys key && contains (keys_of r rows) key)
unfolding joined contains
any-joined r key [] rows = refl
any-joined r key (k ∷ keys) rows = ground (
  arith,
  any-gives-++ r key (rows_of k (roles_with k rows)) (joined keys rows),
  any-rows_of r key k (roles_with k rows),
  row_of_key r key k rows,
  any-joined r key keys rows,
)

has_key-insert_row :
    (i : Option ℕ) (k : String) (m : Sets) (r : ℕ) (key : String)
    → has_key (insert_row i k m) r key ≡ (gives r key (i, k) || has_key m r key)
unfolding contains
has_key-insert_row none k m r key = refl
has_key-insert_row (some i) k m r key = ground (arith, has_key-extend_entry i (k ∷ []) m r key)

has_key-perm_map :
    (rows : List (Option ℕ × String)) (m : Sets) (r : ℕ) (key : String)
    → has_key (perm_map rows m) r key ≡ (any (gives r key) rows || has_key m r key)
unfolding perm_map
has_key-perm_map [] m r key = refl
has_key-perm_map ((i, k) ∷ rows) m r key =
    ground (arith, has_key-perm_map rows (insert_row i k m) r key, has_key-insert_row i k m r key)

-- Whether the tables give a role a permission.
abbrev pub role_has : Access → ℕ → String → Bool
role_has a r key = contains a.permissions key && contains (keys_of r a.role_permissions) key

pub has_key-load : (a : Access) (r : ℕ) (key : String) → has_key (load a) r key ≡ role_has a r key
unfolding load get
has_key-load a r key = ground (
  arith,
  has_key-perm_map (joined a.permissions a.role_permissions) [] r key,
  any-joined r key a.permissions a.role_permissions,
)

abbrev pub is_global : Option ℕ → Bool
is_global none = true
is_global (some c) = false

abbrev pub is_scoped : Option ℕ → ℕ → Bool
is_scoped none c = false
is_scoped (some i) c = i == c

contains-extend_with :
    (o : Option (List String)) (result : List String) (key : String)
    → contains (extend_with o result) key ≡ (contains_in o key || contains result key)
contains-extend_with none result key = refl
contains-extend_with (some ks) result key = contains-extend ks result key

contains-global_keys :
    (m : Sets) (s : Option ℕ) (r : ℕ) (result : List String) (key : String)
    → contains (global_keys m s r result) key
      ≡ (is_global s && has_key m r key || contains result key)
contains-global_keys m (some c) r result key = refl
contains-global_keys m none r result key = contains-extend_with (get m r) result key

pub contains-resolve_global :
    (m : Sets) (rows : List UserRoleAssignment) (result : List String) (key : String)
    → contains (resolve_global m rows result) key
      ≡ (any (λ a. is_global a.category_id && has_key m a.role_id key) rows || contains result key)
unfolding resolve_global
contains-resolve_global m [] result key = refl
contains-resolve_global m (a ∷ rows) result key = ground (
  arith,
  contains-resolve_global m rows (global_keys m a.category_id a.role_id result) key,
  contains-global_keys m a.category_id a.role_id result key,
)

has_key-extend_category :
    (i : ℕ) (o : Option (List String)) (result : Sets) (c : ℕ) (key : String)
    → has_key (extend_category i o result) c key
      ≡ ((i == c) && contains_in o key || has_key result c key)
has_key-extend_category i none result c key = ground arith
has_key-extend_category i (some ks) result c key = has_key-extend_entry i ks result c key

has_key-category_keys :
    (m : Sets) (s : Option ℕ) (r : ℕ) (result : Sets) (c : ℕ) (key : String)
    → has_key (category_keys m s r result) c key
      ≡ (is_scoped s c && has_key m r key || has_key result c key)
has_key-category_keys m none r result c key = refl
has_key-category_keys m (some i) r result c key = has_key-extend_category i (get m r) result c key

pub has_key-resolve_category :
    (m : Sets) (rows : List UserRoleAssignment) (result : Sets) (c : ℕ) (key : String)
    → has_key (resolve_category m rows result) c key ≡ (
        any (λ a. is_scoped a.category_id c && has_key m a.role_id key) rows
        || has_key result c key)
unfolding resolve_category
has_key-resolve_category m [] result c key = refl
has_key-resolve_category m (a ∷ rows) result c key = ground (
  arith,
  has_key-resolve_category m rows (category_keys m a.category_id a.role_id result) c key,
  has_key-category_keys m a.category_id a.role_id result c key,
)
