-- ===== src/RoleCache/Granted.antt =====
-- A request's permissions against the tables.
use ferum_board.Prelude.{
  ℕ, String, ◌≡◌, refl, ap, ◌∙◌, Bool, true, false, ◌||◌, ◌&&◌, Option, none, some, List, [], ◌∷◌,
  arith, any, str_eq, eq_iff, ltb, ◌==◌, if◌then◌else◌, ◌+◌, ◌≤◌,
}
use ferum_board.Domain.Error.{Result, ok, err}
use ferum_board.Domain.AuthUser.{
  AuthUser, contains, get, has_perm, has_perm_in, permitted_category_ids,
}
use ferum_board.Domain.AuthUser.Scope.{allows, IsFresh, HasDistinctKeys, permitted_category_ids_iff}
use ferum_board.Domain.Role.{UserRoleAssignment}
use ferum_board.Store.{Env, Access}
use ferum_board.Exec.{World, read, step, attempt, pure, ask, ◌>>=◌}
use ferum_board.Exec.Cached.{cache_get, cache_set}
use ferum_board.Infra.Cache
use ferum_board.Infra.Cache.Laws.{shown, get-set}
use ferum_board.Repo.Roles.{live_for_user}
use ferum_board.RoleCache.{
  Sets, extend, extend_entry, category_keys, extend_category, load, resolve_category,
}
use ferum_board.RoleCache.Sets.{has_key}
use ferum_board.RoleCache.Resolve.{
  role_has, has_key-load, is_global, is_scoped, contains-resolve_global, has_key-resolve_category,
}
use ferum_board.RoleCache.Session.{
  Permissions, resolved, with_permissions, list_for_user, fetch, resolve_permissions,
  user_roles_cache_ttl,
}

-- Whether an assignment gives its holder the permission in the category.
abbrev pub grants : Access → String → ℕ → UserRoleAssignment → Bool
grants a key c u =
    (is_global u.category_id || is_scoped u.category_id c) && role_has a u.role_id key

any-grants :
    (a : Access) (key : String) (c : ℕ) (rows : List UserRoleAssignment)
    → (any (λ u. is_global u.category_id && has_key (load a) u.role_id key) rows
        || any (λ u. is_scoped u.category_id c && has_key (load a) u.role_id key) rows)
      ≡ any (grants a key c) rows
any-grants a key c [] = refl
any-grants a key c (u ∷ rows) =
    ground (arith, any-grants a key c rows, has_key-load a u.role_id key)

-- A user whose permissions are resolved from a list of assignments, through the map loaded from the
-- tables, passes the check of a permission in a category exactly where one of the assignments is global
-- or of that category and its role has the permission in the tables.
pub has_perm_in-resolved :
    (a : Access) (rows : List UserRoleAssignment) (user : AuthUser) (key : String) (c : ℕ)
    → has_perm_in (with_permissions (resolved (load a) rows) user) key c ≡ any (grants a key c) rows
unfolding has_perm_in has_perm resolved with_permissions get contains
has_perm_in-resolved a rows user key c = ground (
  arith,
  contains-resolve_global (load a) rows [] key,
  has_key-resolve_category (load a) rows [] c key,
  any-grants a key c rows,
)

if-IsFresh :
    (c : ℕ) (b : Bool) (m n : Sets) → IsFresh c m → IsFresh c n → IsFresh c (if b then m else n)
if-IsFresh c true m n p q = p
if-IsFresh c false m n p q = q

if-HasDistinctKeys :
    (b : Bool) (m n : Sets)
    → (b ≡ true → HasDistinctKeys m)
    → (b ≡ false → HasDistinctKeys n)
    → HasDistinctKeys (if b then m else n)
if-HasDistinctKeys true m n p q = p refl
if-HasDistinctKeys false m n p q = q refl

extend_entry-IsFresh :
    (c i : ℕ) (ks : List String) (m : Sets)
    → (c == i) ≡ false
    → IsFresh c m
    → IsFresh c (extend_entry i ks m)
unfolding extend_entry
extend_entry-IsFresh c i ks [] h f = (ground (arith, h), tt)
extend_entry-IsFresh c i ks ((k, v) ∷ m) h f =
    if-IsFresh c (k == i) ((k, extend v ks) ∷ m) ((k, v) ∷ extend_entry i ks m) f
      (f.0, extend_entry-IsFresh c i ks m h f.1)

extend_entry-HasDistinctKeys :
    (i : ℕ) (ks : List String) (m : Sets)
    → HasDistinctKeys m
    → HasDistinctKeys (extend_entry i ks m)
unfolding extend_entry
extend_entry-HasDistinctKeys i ks [] d = (tt, tt)
extend_entry-HasDistinctKeys i ks ((k, v) ∷ m) d =
    if-HasDistinctKeys (k == i) ((k, extend v ks) ∷ m) ((k, v) ∷ extend_entry i ks m) (λ e. d)
      (λ e. (extend_entry-IsFresh k i ks m e d.0, extend_entry-HasDistinctKeys i ks m d.1))

extend_category-HasDistinctKeys :
    (i : ℕ) (o : Option (List String)) (m : Sets)
    → HasDistinctKeys m
    → HasDistinctKeys (extend_category i o m)
extend_category-HasDistinctKeys i none m d = d
extend_category-HasDistinctKeys i (some ks) m d = extend_entry-HasDistinctKeys i ks m d

category_keys-HasDistinctKeys :
    (m : Sets) (s : Option ℕ) (r : ℕ) (result : Sets)
    → HasDistinctKeys result
    → HasDistinctKeys (category_keys m s r result)
category_keys-HasDistinctKeys m none r result d = d
category_keys-HasDistinctKeys m (some c) r result d =
    extend_category-HasDistinctKeys c (get m r) result d

resolve_category-HasDistinctKeys :
    (m : Sets) (rows : List UserRoleAssignment) (result : Sets)
    → HasDistinctKeys result
    → HasDistinctKeys (resolve_category m rows result)
unfolding resolve_category
resolve_category-HasDistinctKeys m [] result d = d
resolve_category-HasDistinctKeys m (a ∷ rows) result d =
    resolve_category-HasDistinctKeys m rows _
      (category_keys-HasDistinctKeys m a.category_id a.role_id result d)

-- The categories that the scope of a user's queue allows for a permission, where the user's permissions
-- are resolved from a list of assignments through the map loaded from the tables: all those in which a
-- global assignment, or one of that category, has a role with the permission in the tables, and no other.
pub scope_of_resolved :
    (a : Access) (rows : List UserRoleAssignment) (user : AuthUser) (key : String) (c : ℕ)
    → allows (permitted_category_ids (with_permissions (resolved (load a) rows) user) key) c
      ≡ any (grants a key c) rows
unfolding with_permissions resolved
scope_of_resolved a rows user key c =
    permitted_category_ids_iff (with_permissions (resolved (load a) rows) user) key c
      (resolve_category-HasDistinctKeys (load a) rows [] tt)
    ∙ has_perm_in-resolved a rows user key c

-- The permissions that a run ends in; it never ends in an error.
abbrev pub outcome_of : Result Permissions → Permissions
outcome_of (ok p) = p
outcome_of (err e) = ([], [])

module _ (cache_key : ℕ → String) (to_json : List UserRoleAssignment → String)
    (from_json : String → Option (List UserRoleAssignment)) where
  -- The run on a miss, and the run on a hit.
  run_on_miss :
      (m : Sets) (user_id : ℕ) (env : Env) (w : World)
      → shown (cache_key user_id) env.now w.db.cache ≡ none
      → env.fails w.calls ≡ false
      → (resolve_permissions cache_key to_json from_json m user_id env w).0
        ≡ ok (resolved m (live_for_user user_id env.now w.db.access.user_roles))
  unfolding resolve_permissions ◌>>=◌ cache_get fetch list_for_user attempt read ask step cache_set
      pure
  run_on_miss m user_id env w miss up = ground (arith, miss, up)

  run_on_hit :
      (m : Sets) (user_id : ℕ) (env : Env) (w : World) (json : String)
      (rows : List UserRoleAssignment)
      → shown (cache_key user_id) env.now w.db.cache ≡ some json
      → from_json json ≡ some rows
      → (resolve_permissions cache_key to_json from_json m user_id env w).0 ≡ ok (resolved m rows)
  unfolding resolve_permissions ◌>>=◌ cache_get fetch pure
  run_on_hit m user_id env w json rows hit d = ground (arith, hit, d)

  -- For a user without assignments in the cache, where the query does not fail: the permissions of the
  -- request pass the check of a permission in a category exactly where one of the user's assignments
  -- that have not expired is global or of that category and has a role with the permission, by the
  -- assignments of now and by the permissions of roles that the resolver's map was loaded from.
  pub resolve_permissions-on_miss :
      (loaded : Access) (user_id : ℕ) (env : Env) (w : World) (user : AuthUser) (key : String)
      (c : ℕ)
      → shown (cache_key user_id) env.now w.db.cache ≡ none
      → env.fails w.calls ≡ false
      → has_perm_in
          (with_permissions
            (outcome_of
              (resolve_permissions cache_key to_json from_json (load loaded) user_id env w).0)
            user)
          key
          c
        ≡ any (grants loaded key c) (live_for_user user_id env.now w.db.access.user_roles)
  resolve_permissions-on_miss loaded user_id env w user key c miss up =
      ap (λ r. has_perm_in (with_permissions (outcome_of r) user) key c)
        (run_on_miss (load loaded) user_id env w miss up)
      ∙ has_perm_in-resolved loaded (live_for_user user_id env.now w.db.access.user_roles) user key
          c

  -- What the query of a miss answered: nothing where it failed.
  abbrev pub fetched : ℕ → Env → World → List UserRoleAssignment
  fetched user_id env w =
      if env.fails w.calls then [] else live_for_user user_id env.now w.db.access.user_roles

  stored_on_miss :
      (m : Sets) (user_id : ℕ) (env : Env) (w : World)
      → shown (cache_key user_id) env.now w.db.cache ≡ none
      → (resolve_permissions cache_key to_json from_json m user_id env w).1.db.cache
        ≡ Cache.set
            (cache_key user_id)
            (to_json (fetched user_id env w))
            user_roles_cache_ttl
            env.now
            (Cache.get (cache_key user_id) env.now w.db.cache).1
  unfolding resolve_permissions ◌>>=◌ cache_get fetch list_for_user attempt read ask step cache_set
      pure
  stored_on_miss m user_id env w miss = ground (arith, miss)

  -- What a miss stored is what requests get for five minutes, whatever the tables hold by then: a request
  -- at a later time, up to the end of the time to live, whose cache is the one that the miss left, gets
  -- the permissions of the assignments that the query of the miss answered, through the roles as they are
  -- loaded now; and of no assignment where that query failed. It is assumed that the JSON of what the
  -- query answered is read back as the same.
  pub resolve_permissions-again :
      (m m' : Sets) (user_id : ℕ) (env env' : Env) (w w' : World)
      → from_json (to_json (fetched user_id env w)) ≡ some (fetched user_id env w)
      → shown (cache_key user_id) env.now w.db.cache ≡ none
      → w'.db.cache ≡ (resolve_permissions cache_key to_json from_json m user_id env w).1.db.cache
      → env.now ≤ env'.now
      → env'.now ≤ env.now + user_roles_cache_ttl
      → (resolve_permissions cache_key to_json from_json m' user_id env' w').0
        ≡ ok (resolved m' (fetched user_id env w))
  resolve_permissions-again m m' user_id env env' w w' reads miss same later soon =
      run_on_hit m' user_id env' w' (to_json (fetched user_id env w)) (fetched user_id env w)
        (ap (shown (cache_key user_id) env'.now) (same ∙ stored_on_miss m user_id env w miss)
          ∙ get-set (cache_key user_id) (cache_key user_id) (to_json (fetched user_id env w))
              user_roles_cache_ttl env.now env'.now
              (Cache.get (cache_key user_id) env.now w.db.cache).1 later
          ∙ read_in_time)
        reads
    where
      read_in_time :
          (if str_eq (cache_key user_id) (cache_key user_id)
            then (if ltb (env.now + user_roles_cache_ttl) env'.now
                then none
                else some (to_json (fetched user_id env w)))
            else shown
                (cache_key user_id)
                env'.now
                (Cache.get (cache_key user_id) env.now w.db.cache).1)
          ≡ some (to_json (fetched user_id env w))
      read_in_time = ground (arith, eq_iff (cache_key user_id) (cache_key user_id), soon)
