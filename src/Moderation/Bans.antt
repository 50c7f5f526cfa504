-- ===== src/Moderation/Bans.antt =====
-- A ban ends the sessions of the user.
use ferum_board.Prelude.{
  ℕ, ◌-◌, String, ◌≡◌, ap, ◌∙◌, Bool, true, none, some, Text, arith, ltb, str_eq, if◌then◌else◌,
}
use ferum_board.Domain.Error.{ok, err, unauthorized}
use ferum_board.Domain.AuthUser.{AuthUser}
use ferum_board.Domain.Event.{ForumEvent, user_banned}
use ferum_board.Store.{Env}
use ferum_board.Exec.{World, pure, ask, publish}
use ferum_board.Exec.Cached.{cache_del, cache_del_prefix, cache_set}
use ferum_board.Exec.Runs.{bind-ok}
use ferum_board.Infra.Cache
use ferum_board.Infra.Cache.Laws.{shown, get-del_prefix}
use ferum_board.Repo.Users
use ferum_board.Auth.{AuthPorts}
use ferum_board.Auth.Account.{refresh_access_token}
use ferum_board.Auth.Revoked.{refresh_refused}
use ferum_board.Moderation.{BanKeys, prepare_ban, end_sessions, temp_ban}

-- The cache after the sessions are ended.
abbrev pub cache_after : BanKeys → ℕ → Cache.Entries → Cache.Entries
cache_after keys user_id c =
    Cache.del (keys.roles_key user_id) (Cache.del_prefix (keys.is_refresh_key user_id) c)

pub del-cache :
    (env : Env) (w : World) {v : World} {x : Unit {0}} (key : String)
    → cache_del key env w ≡ (ok x, v)
    → v.db.cache ≡ Cache.del key w.db.cache
unfolding cache_del
del-cache env w key h = cc

pub del_prefix-cache :
    (env : Env) (w : World) {v : World} {x : Unit {0}} (p : String → Bool)
    → cache_del_prefix p env w ≡ (ok x, v)
    → v.db.cache ≡ Cache.del_prefix p w.db.cache
unfolding cache_del_prefix
del_prefix-cache env w p h = cc

pub publish-cache :
    (env : Env) (w : World) {v : World} {x : Unit {0}} (e : ForumEvent)
    → publish e env w ≡ (ok x, v)
    → v.db.cache ≡ w.db.cache
unfolding publish
publish-cache env w e h = cc

end_sessions-cache :
    (keys : BanKeys) (user_id until : ℕ) (env : Env) (w : World) {v : World} {x : Unit {0}}
    → end_sessions keys user_id until env w ≡ (ok x, v)
    → (c : Cache.Entries) × (v.db.cache ≡ cache_after keys user_id c)
unfolding end_sessions
end_sessions-cache keys user_id until env w h =
    let (now, u1, h1, k1) = bind-ok env (ask (λ e. e.now)) _ w h in
    let (x, u2, h2, k2) =
      bind-ok env
        (if ltb now until then cache_set (keys.banned_key user_id) "1" (until - now) else pure tt) _
        u1 k1 in
    let (y, u3, h3, k3) =
      bind-ok env (cache_del_prefix (keys.is_refresh_key user_id))
        (λ _. cache_del (keys.roles_key user_id)) u2 k2 in
    (
      u2.db.cache,
      del-cache env u3 (keys.roles_key user_id) k3
          ∙ ap (Cache.del (keys.roles_key user_id))
              (del_prefix-cache env u2 (keys.is_refresh_key user_id) h3),
    )

gone :
    (keys : BanKeys) (user_id now : ℕ) (key : String) (c : Cache.Entries)
    → keys.is_refresh_key user_id key ≡ true
    → shown key now (cache_after keys user_id c) ≡ none
unfolding Cache.del Cache.remove Cache.del_prefix
gone keys user_id now key c h =
    get-del_prefix (λ j. str_eq j (keys.roles_key user_id)) key now
      (Cache.del_prefix (keys.is_refresh_key user_id) c)
    ∙ ground (arith, get-del_prefix (keys.is_refresh_key user_id) key now c, h)

-- A ban that succeeds ends the sessions of the user: while the cache is the one that the ban left, a
-- refresh with any of the user's refresh tokens is refused and changes nothing. The keys of the user's
-- refresh tokens are among those with the prefix that the ban deletes.
pub temp_ban-ends_sessions :
    (ports : AuthPorts) (keys : BanKeys) (env env' : Env) (w v w' : World) (actor : AuthUser)
    (user_id until : ℕ) (reason : Text) (token : String)
    → temp_ban keys actor user_id reason until env w ≡ (ok tt, v)
    → w'.db.cache ≡ v.db.cache
    → ports.verify_refresh_token token ≡ ok user_id
    → keys.is_refresh_key user_id (ports.refresh_token_key user_id token) ≡ true
    → refresh_access_token ports token env' w' ≡ (err unauthorized, w')
unfolding temp_ban
temp_ban-ends_sessions ports keys env env' w v w' actor user_id until reason token h same valid
      mine =
    let (x1, u1, h1, k1) = bind-ok env (prepare_ban actor user_id reason until) _ w h in
    let (x2, u2, h2, k2) = bind-ok env (Users.update_ban user_id (some until)) _ u1 k1 in
    let (x3, u3, h3, k3) = bind-ok env (end_sessions keys user_id until) (λ _. publish _) u2 k2 in
    let (c, after) = end_sessions-cache keys user_id until env u2 h3 in
    let now_gone = gone keys user_id env'.now (ports.refresh_token_key user_id token) c mine in
    refresh_refused ports env' w' user_id token valid (
      ap (shown (ports.refresh_token_key user_id token) env'.now)
        (same ∙ publish-cache env u3 (user_banned user_id actor.id reason (some until)) k3 ∙ after)
      ∙ now_gone)
