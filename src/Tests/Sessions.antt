-- ===== src/Tests/Sessions.antt =====
-- Logins, passwords, reports and bans on a small forum.
use ferum_board.Prelude.{
  ℕ, ◌+◌, ◌*◌, String, ◌≡◌, ◌≢◌, refl, arith, true, false, not, Bool, str_eq, Option, none, some,
  List, [], ◌∷◌, Text, ◌==◌,
}
use ferum_board.Prelude.Int.{pos_part}
use ferum_board.Domain.Error.{ok, err, unauthorized, forbidden}
use ferum_board.Domain.User.{User, basic}
use ferum_board.Domain.AuthUser.{AuthUser, is_currently_banned}
use ferum_board.Domain.Review.{Report, pending, resolved}
use ferum_board.Store.{Env}
use ferum_board.Exec.{World}
use ferum_board.Text.{codes}
use ferum_board.Repo.Reports
use ferum_board.Auth.{AuthPorts, LoginResult, login}
use ferum_board.Auth.Account.{reset_password, refresh_access_token}
use ferum_board.Auth.Lockout.{seen_of}
use ferum_board.Auth.Locked.{lockout_holds}
use ferum_board.Auth.Access.{MayLogin, login-MayLogin}
use ferum_board.Auth.Revoked.{reset_password_once}
use ferum_board.Moderation.{BanKeys, resolve_report, temp_ban}
use ferum_board.RoleCache.Session.{ban_of, with_ban}
use ferum_board.Moderation.Banned.{temp_ban-ban_of}
use ferum_board.Moderation.Bans.{temp_ban-ends_sessions}
use ferum_board.Tests.Data.{alice, morgan, alice_row, forum, quiet}

abbrev ports : AuthPorts
ports = record {
  verify = λ password hash. ok true;
  hash = λ password. ok "hash";
  mint_access_token = λ user. ok "access";
  mint_refresh_token = λ id. ok "refresh";
  verify_refresh_token = λ token. ok 1;
  verify_email_token = λ token purpose. ok 1;
  refresh_token_key = λ id token. "refresh:1:token";
  used_token_key = λ token. "used_token:token";
  refresh_token_ttl_secs = 600;
  is_alphanumeric = λ c. not (c == 45);
  parse_i32 = λ t. none;
  parse_u64 = λ t. none;
  add_minutes = λ now m. some (now + pos_part m * 60000);
}

abbrev strict : AuthPorts
strict = record ports { verify = λ password hash. ok false }

-- Four passwords were wrong before.
abbrev tried_row : User
tried_row = record alice_row { password_hash = some "hash"; failed_login_count = 4 }

abbrev door : World
door = record { db = record forum { users = tried_row ∷ [] }; calls = 0 }

abbrev soon : Env
soon = record quiet { now = 300 }

abbrev shut : World
shut = (login strict "alice@example.org" (codes "x") quiet door).1

-- The right password is refused too.
lockout_holds_example :
    seen_of (login strict "alice@example.org" (codes "hash") soon shut)
    ≡ (err (forbidden "account_locked"), shut.db)
unfolding ferum_board.Prelude.find_row ferum_board.Domain.User.is_account_locked
    ferum_board.Repo.Config.lookup
lockout_holds_example =
    lockout_holds strict quiet soon door shut "alice@example.org" (codes "x") (codes "hash")
      tried_row false (λ n. refl) (λ n. refl) refl refl refl refl refl (omega arith) refl refl refl
      (omega arith)

login-MayLogin_example : MayLogin ports door.db "alice@example.org" (codes "hash") 200
unfolding login ferum_board.Exec.◌>>=◌ ferum_board.Repo.Users.find_by_email ferum_board.Exec.read
    ferum_board.Exec.step ferum_board.Prelude.find_row ferum_board.Exec.ask
    ferum_board.Domain.User.is_account_locked ferum_board.Auth.check_password ferum_board.Exec.lift
    ferum_board.Auth.finish_login ferum_board.Exec.refuse_if
    ferum_board.Domain.User.is_currently_banned ferum_board.Repo.Users.reset_failed_login
    ferum_board.Exec.write ferum_board.Exec.swallow ferum_board.Repo.Users.update_last_seen
    ferum_board.Auth.evaluate_trust_promotion ferum_board.Auth.open_session ferum_board.Exec.pure
    ferum_board.Exec.Cached.cache_set
login-MayLogin_example =
    login-MayLogin ports quiet door (login ports "alice@example.org" (codes "hash") quiet door).1
      (record { user = tried_row; access_token = "access"; refresh_token = "refresh" })
      "alice@example.org" (codes "hash") refl

-- Enough posts on enough days.
abbrev busy_row : User
busy_row = record alice_row {
  trust_level = basic;
  post_count = 30;
  days_visited = 15;
  password_hash = some "hash";
}

abbrev hall : World
hall = record { db = record forum { users = busy_row ∷ [] }; calls = 0 }

abbrev let_in : World
let_in = (login ports "alice@example.org" (codes "hash") quiet hall).1

abbrev password : Text
password = codes "pass-word1"

abbrev reset_once : World
reset_once = (reset_password ports "token" password quiet door).1

reset_password_once_example :
    ((reset_password ports "token" password soon reset_once).0 ≢ ok tt)
    × ((reset_password ports "token" password soon reset_once).1.db.users ≡ reset_once.db.users)
unfolding reset_password ferum_board.Auth.Account.claim_token ferum_board.Exec.◌>>=◌
    ferum_board.Exec.refuse_if ferum_board.Exec.lift ferum_board.Auth.Account.validate_password
    ferum_board.Text.byte_len ferum_board.Exec.Cached.cache_set_nx ferum_board.Infra.Cache.set_nx
    ferum_board.Infra.Cache.lookup ferum_board.Exec.pure ferum_board.Repo.Users.set_password_hash
    ferum_board.Exec.write ferum_board.Exec.step
reset_password_once_example =
    reset_password_once ports quiet soon door reset_once reset_once "token" password password refl
      refl (omega arith)

abbrev complaint : Report
complaint = record {
  id = 40;
  reporter_id = 1;
  post_id = some 20;
  thread_id = none;
  reason = codes "spam";
  status = pending;
  moderator_notes = none;
  resolved_by_id = none;
  resolved_at = none;
}

abbrev judge : AuthUser
judge = record morgan { permissions = "moderation.resolve" ∷ "moderation.ban_temp" ∷ [] }

abbrev desk : World
desk = record {
  db = record forum { desk = record { reports = complaint ∷ []; notices = []; audit = [] } };
  calls = 0;
}

abbrev settled : World
settled = (resolve_report judge 40 resolved none quiet desk).1

abbrev ban_keys : BanKeys
ban_keys = record {
  banned_key = λ id. "user:banned";
  roles_key = λ id. "user:roles";
  is_refresh_key = λ id key. str_eq key "refresh:1:token";
}

abbrev banned_world : World
banned_world = (temp_ban ban_keys judge 1 (codes "spam") 900 quiet desk).1

temp_ban-ends_sessions_example :
    refresh_access_token ports "refresh" soon banned_world ≡ (err unauthorized, banned_world)
unfolding temp_ban ferum_board.Moderation.prepare_ban ferum_board.Exec.◌>>=◌
    ferum_board.Exec.refuse_if ferum_board.Text.byte_len ferum_board.Exec.lift
    ferum_board.Permission.can_ban_temp ferum_board.Domain.AuthUser.has_perm
    ferum_board.Domain.AuthUser.contains ferum_board.Repo.Users.find_by_id ferum_board.Exec.read
    ferum_board.Exec.step ferum_board.Prelude.find_row ferum_board.Exec.before_hook
    ferum_board.Exec.dispatch_before_hook ferum_board.Repo.Users.update_ban
    ferum_board.Moderation.end_sessions ferum_board.Exec.ask ferum_board.Exec.Cached.cache_set
    ferum_board.Exec.Cached.cache_del_prefix ferum_board.Exec.Cached.cache_del ferum_board.Exec.pure
    ferum_board.Exec.publish
temp_ban-ends_sessions_example =
    temp_ban-ends_sessions ports ban_keys quiet soon desk banned_world banned_world judge 1 900
      (codes "spam") "refresh" refl refl refl refl

-- The token says nothing of a ban.
temp_ban-ban_of_example :
    (ban : Bool × Option ℕ) × (ban_of "user:banned" false none soon banned_world
      ≡ (ok ban, banned_world))
    × (is_currently_banned (with_ban ban alice) 300 ≡ true)
unfolding temp_ban ferum_board.Moderation.prepare_ban ferum_board.Exec.◌>>=◌
    ferum_board.Exec.refuse_if ferum_board.Text.byte_len ferum_board.Exec.lift
    ferum_board.Permission.can_ban_temp ferum_board.Domain.AuthUser.has_perm
    ferum_board.Domain.AuthUser.contains ferum_board.Repo.Users.find_by_id ferum_board.Exec.read
    ferum_board.Exec.step ferum_board.Prelude.find_row ferum_board.Exec.before_hook
    ferum_board.Exec.dispatch_before_hook ferum_board.Repo.Users.update_ban
    ferum_board.Moderation.end_sessions ferum_board.Exec.ask ferum_board.Exec.Cached.cache_set
    ferum_board.Exec.Cached.cache_del_prefix ferum_board.Exec.Cached.cache_del ferum_board.Exec.pure
    ferum_board.Exec.publish
temp_ban-ban_of_example =
    temp_ban-ban_of ban_keys quiet soon desk banned_world banned_world judge alice 1 900
      (codes "spam") false none refl refl refl refl (omega arith) (omega arith) (omega arith)
