-- ===== src/Exec/Cached.antt =====
-- The calls of the cache service, of which the in-memory one does not fail.
use ferum_board.Prelude.{ℕ, String, Bool, Option}
use ferum_board.Domain.Error.{ok}
use ferum_board.Exec.{Exec}
use ferum_board.Infra.Cache

unfoldable pub cache_get : String → Exec (Option String)
unfolding Cache.get
cache_get key env w =
    let (v, entries) = Cache.get key env.now w.db.cache in
    (ok v, record w { db = record w.db { cache = entries } })

unfoldable pub cache_set : String → String → ℕ → Exec (Unit {0})
unfolding Cache.set
cache_set key value ttl env w =
    (ok tt, record w { db = record w.db { cache = Cache.set key value ttl env.now w.db.cache } })

unfoldable pub cache_del : String → Exec (Unit {0})
unfolding Cache.del
cache_del key env w = (ok tt, record w { db = record w.db { cache = Cache.del key w.db.cache } })

unfoldable pub cache_exists : String → Exec Bool
unfolding Cache.exists
cache_exists key env w = (ok (Cache.exists key env.now w.db.cache), w)

unfoldable pub cache_set_nx : String → String → ℕ → Exec Bool
unfolding Cache.set_nx
cache_set_nx key value ttl env w =
    let (claimed, entries) = Cache.set_nx key value ttl env.now w.db.cache in
    (ok claimed, record w { db = record w.db { cache = entries } })

-- The prefix test is the argument.
unfoldable pub cache_del_prefix : (String → Bool) → Exec (Unit {0})
unfolding Cache.del_prefix
cache_del_prefix starts env w =
    (ok tt, record w { db = record w.db { cache = Cache.del_prefix starts w.db.cache } })
