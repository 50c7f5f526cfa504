-- ===== src/RoleCache/Session.antt =====
-- The user of a request: `resolve_permissions` and the flag of a ban of backend/crates/ferum-web/src/middleware/auth.rs.
use ferum_board.Prelude.{Bool, ◌||◌, if◌then◌else◌, ℕ, String, Option, none, some, List, []}
use ferum_board.Domain.Error.{ok}
use ferum_board.Domain.AuthUser.{AuthUser}
use ferum_board.Domain.Role.{UserRoleAssignment}
use ferum_board.Exec.{Exec, read, attempt, pure, ask, ◌>>=◌, ◌>>◌}
use ferum_board.Exec.Cached.{cache_get, cache_set, cache_exists}
use ferum_board.Repo.Roles.{live_for_user}
use ferum_board.RoleCache.{Sets, resolve_global, resolve_category}

unfoldable pub list_for_user : ℕ → Exec (List UserRoleAssignment)
unfolding live_for_user
list_for_user user_id = do
  now ← ask (λ env. env.now)
  read (λ db. ok (live_for_user user_id now db.access.user_roles))

abbrev pub or_empty : Option (List UserRoleAssignment) → List UserRoleAssignment
or_empty none = []
or_empty (some rows) = rows

-- `HashSet` and `HashMap` of one request.
abbrev pub Permissions : Type 0
Permissions = List String × Sets

unfoldable pub resolved : Sets → List UserRoleAssignment → Permissions
unfolding resolve_global resolve_category
resolved m rows = (resolve_global m rows [], resolve_category m rows [])

-- Five minutes, in milliseconds.
abbrev pub user_roles_cache_ttl : ℕ
user_roles_cache_ttl = 300000

-- `format!("user:roles:{user_id}")`, and the JSON of a list of assignments.
module _ (cache_key : ℕ → String) (to_json : List UserRoleAssignment → String)
    (from_json : String → Option (List UserRoleAssignment)) where
  abbrev pub decoded : Option String → Option (List UserRoleAssignment)
  decoded none = none
  decoded (some json) = from_json json

  -- On a miss: a failed query counts as no assignments, and what it answered is stored.
  unfoldable pub fetch : ℕ → Exec (List UserRoleAssignment)
  unfolding ◌>>=◌ list_for_user attempt cache_set
  fetch user_id = do
    found ← attempt (list_for_user user_id)
    cache_set (cache_key user_id) (to_json (or_empty found)) user_roles_cache_ttl
    pure (or_empty found)

  abbrev pub hit_or_fetch : Option (List UserRoleAssignment) → ℕ → Exec (List UserRoleAssignment)
  hit_or_fetch none user_id = fetch user_id
  hit_or_fetch (some rows) user_id = pure rows

  unfoldable pub resolve_permissions : Sets → ℕ → Exec Permissions
  unfolding ◌>>=◌ cache_get fetch resolved pure
  resolve_permissions m user_id = do
    cached ← cache_get (cache_key user_id)
    rows ← hit_or_fetch (decoded cached) user_id
    pure (resolved m rows)

-- The user that the middleware makes of the permissions.
unfoldable pub with_permissions : Permissions → AuthUser → AuthUser
with_permissions p user = record user { permissions = p.0; category_permissions = p.1 }

-- Whether the middleware takes the user of a token for banned, and until when: a ban in the cache has
-- no end of its own there.
unfoldable pub ban_of : String → Bool → Option ℕ → Exec (Bool × Option ℕ)
unfolding cache_exists
ban_of banned_key claims_banned claims_until = do
  cache_banned ← cache_exists banned_key
  pure (claims_banned || cache_banned, if cache_banned then none else claims_until)

unfoldable pub with_ban : Bool × Option ℕ → AuthUser → AuthUser
with_ban ban user = record user { is_banned = ban.0; banned_until = ban.1 }
