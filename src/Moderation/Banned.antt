-- ===== src/Moderation/Banned.antt =====
-- A ban reaches the requests that the user makes with tokens from before.
use ferum_board.Prelude.{
  ℕ, ◌-◌, ◌≤◌, ◌<◌, String, ◌≡◌, refl, ap, ◌∙◌, Bool, true, false, ◌||◌, Option, none, some, Text,
  arith, ltb, str_eq, eq_iff, is_some, if◌then◌else◌,
}
use ferum_board.Domain.Error.{ok}
use ferum_board.Domain.AuthUser.{AuthUser, is_currently_banned}
use ferum_board.Domain.Event.{user_banned}
use ferum_board.Store.{Db, Env}
use ferum_board.Exec.{World, pure, ask, publish}
use ferum_board.Exec.Cached.{cache_del, cache_del_prefix, cache_set, cache_exists}
use ferum_board.Exec.Runs.{bind-ok, bind-run}
use ferum_board.Infra.Cache
use ferum_board.Infra.Cache.Laws.{shown, get-set, get-del_prefix}
use ferum_board.Repo.Users
use ferum_board.RoleCache.Session.{ban_of, with_ban}
use ferum_board.Moderation.{BanKeys, prepare_ban, end_sessions, temp_ban}
use ferum_board.Moderation.Bans.{del-cache, del_prefix-cache, publish-cache, cache_after}

ask-now :
    (env : Env) (w : World) {v : World} {t : ℕ}
    → ask (λ e. e.now) env w ≡ (ok t, v)
    → (t ≡ env.now) × (v.db ≡ w.db)
unfolding ask
ask-now env w h = (cc, cc)

set-cache :
    (key : String) (until now : ℕ) (env : Env) (w : World) {v : World} {x : Unit {0}}
    → ltb now until ≡ true
    → (if ltb now until then cache_set key "1" (until - now) else pure tt) env w ≡ (ok x, v)
    → v.db.cache ≡ Cache.set key "1" (until - now) env.now w.db.cache
unfolding cache_set
set-cache key until now env w before h = ground (arith, before, h)

end_sessions-set :
    (keys : BanKeys) (user_id until : ℕ) (env : Env) (w : World) {v : World} {x : Unit {0}}
    → env.now < until
    → end_sessions keys user_id until env w ≡ (ok x, v)
    → v.db.cache
      ≡ cache_after keys user_id
          (Cache.set (keys.banned_key user_id) "1" (until - env.now) env.now w.db.cache)
unfolding end_sessions
end_sessions-set keys user_id until env w before h =
    let (now, u1, h1, k1) = bind-ok env (ask (λ e. e.now)) _ w h in
    let (x, u2, h2, k2) =
      bind-ok env
        (if ltb now until then cache_set (keys.banned_key user_id) "1" (until - now) else pure tt) _
        u1 k1 in
    let (y, u3, h3, k3) =
      bind-ok env (cache_del_prefix (keys.is_refresh_key user_id))
        (λ _. cache_del (keys.roles_key user_id)) u2 k2 in
    let (time, same) = ask-now env w h1 in
    del-cache env u3 (keys.roles_key user_id) k3
    ∙ ap (Cache.del (keys.roles_key user_id))
        (del_prefix-cache env u2 (keys.is_refresh_key user_id) h3)
    ∙ ap (cache_after keys user_id) (
        set-cache (keys.banned_key user_id) until now env u1 (ground (arith, time, before)) h2
        ∙ ap (λ t. Cache.set (keys.banned_key user_id) "1" (until - t) env.now u1.db.cache) time
        ∙ ap (λ (d : Db). Cache.set (keys.banned_key user_id) "1" (until - env.now) env.now d.cache)
            same)

-- The mark of the ban, while it runs.
marked :
    (keys : BanKeys) (user_id until now later : ℕ) (c : Cache.Entries)
    → keys.is_refresh_key user_id (keys.banned_key user_id) ≡ false
    → str_eq (keys.banned_key user_id) (keys.roles_key user_id) ≡ false
    → now ≤ later
    → later ≤ until
    → shown
        (keys.banned_key user_id)
        later
        (cache_after keys user_id (Cache.set (keys.banned_key user_id) "1" (until - now) now c))
      ≡ some "1"
unfolding Cache.del Cache.remove Cache.del_prefix
marked keys user_id until now later c apart other after before =
    let mark = keys.banned_key user_id in
    let set = Cache.set mark "1" (until - now) now c in
    get-del_prefix (λ j. str_eq j (keys.roles_key user_id)) mark later
      (Cache.del_prefix (keys.is_refresh_key user_id) set)
    ∙ ground (
      arith,
      other,
      apart,
      after,
      before,
      get-del_prefix (keys.is_refresh_key user_id) mark later set,
      get-set mark mark "1" (until - now) now later c after,
      eq_iff mark mark,
    )

flagged :
    (key : String) (env : Env) (w : World) (b : Bool) (t : Option ℕ)
    → shown key env.now w.db.cache ≡ some "1"
    → ban_of key b t env w ≡ (ok (b || true, none), w)
unfolding ban_of cache_exists Cache.exists pure
flagged key env w b t mark =
    bind-run env w (cache_exists key) (λ c. pure (b || c, if c then none else t))
      (ap (λ (o : Option String). (ok (is_some o), w)) mark)

in_force :
    (b : Bool) (user : AuthUser) (now : ℕ)
    → is_currently_banned (with_ban (b || true, none) user) now ≡ true
unfolding is_currently_banned with_ban
in_force true user now = refl
in_force false user now = refl

-- A ban that succeeds holds at once: up to its end, a request of the user with a token from before the
-- ban is one of a user who is banned, whatever the token says, while the cache is the one that the ban
-- left. The key of the mark is neither the key of the assignments nor one with the prefix of the refresh
-- tokens.
pub temp_ban-ban_of :
    (keys : BanKeys) (env env' : Env) (w v w' : World) (actor user : AuthUser) (user_id until : ℕ)
    (reason : Text) (claims_banned : Bool) (claims_until : Option ℕ)
    → temp_ban keys actor user_id reason until env w ≡ (ok tt, v)
    → w'.db.cache ≡ v.db.cache
    → keys.is_refresh_key user_id (keys.banned_key user_id) ≡ false
    → str_eq (keys.banned_key user_id) (keys.roles_key user_id) ≡ false
    → env.now < until
    → env.now ≤ env'.now
    → env'.now ≤ until
    → (ban : Bool × Option ℕ) × (ban_of (keys.banned_key user_id) claims_banned claims_until env' w'
        ≡ (ok ban, w'))
      × (is_currently_banned (with_ban ban user) env'.now ≡ true)
unfolding temp_ban
temp_ban-ban_of keys env env' w v w' actor user user_id until reason b t h same apart other running
      after before =
    let (x1, u1, h1, k1) = bind-ok env (prepare_ban actor user_id reason until) _ w h in
    let (x2, u2, h2, k2) = bind-ok env (Users.update_ban user_id (some until)) _ u1 k1 in
    let (x3, u3, h3, k3) = bind-ok env (end_sessions keys user_id until) (λ _. publish _) u2 k2 in
    let mark =
      ap (shown (keys.banned_key user_id) env'.now) (
        same
        ∙ publish-cache env u3 (user_banned user_id actor.id reason (some until)) k3
        ∙ end_sessions-set keys user_id until env u2 running h3)
      ∙ marked keys user_id until env.now env'.now u2.db.cache apart other after before in
    (
      (b || true, none),
      flagged (keys.banned_key user_id) env' w' b t mark,
      in_force b user env'.now,
    )
