-- ===== src/Auth/Lockout.antt =====
-- Wrong passwords.
use ferum_board.Prelude.{
  ℕ, ◌+◌, String, Text, ◌≡◌, refl, ap, ◌∙◌, Bool, true, false, not, ◌||◌, Option, some, find_row,
  is_none, unwrap_or, if◌then◌else◌, str_eq,
}
use ferum_board.Prelude.Int.{ℤ, as_i64}
use ferum_board.Domain.Error.{Result, ok, err, unauthorized, forbidden}
use ferum_board.Domain.User.{User, is_account_locked}
use ferum_board.Store.{Db, Env}
use ferum_board.Exec.{World, tick, pure, lift, fail, attempt, ask, settle, continue, ◌>>=◌, ◌>>◌}
use ferum_board.Exec.Runs.{Quiet, bind-run, step-run, read-run, write-run}
use ferum_board.Repo.Users
use ferum_board.Repo.Config
use ferum_board.Repo.Config.Runs.{config-run}
use ferum_board.Auth.{
  AuthPorts, LoginResult, parsed, reaches, or_panic, default_account_lockout_attempts,
  default_account_lockout_duration_minutes, get_config_i32, get_config_u64, lock_account,
  failed_login, check_password, login_of, login, finish_login, invalid_hash,
}

-- The settings, of the site or by default.
abbrev pub lockout_attempts : AuthPorts → Db → ℤ
lockout_attempts ports db =
    parsed ports.parse_i32 (some (Config.lookup "account_lockout_attempts" db.config))
      default_account_lockout_attempts

abbrev pub lockout_minutes : AuthPorts → Db → ℕ
lockout_minutes ports db =
    parsed ports.parse_u64 (some (Config.lookup "account_lockout_duration_minutes" db.config))
      default_account_lockout_duration_minutes

-- The end of a lock that starts now.
abbrev pub lock_end : AuthPorts → Env → Db → Option ℕ
lock_end ports env db = ports.add_minutes env.now (as_i64 (lockout_minutes ports db))

-- The database after a failure that locks the account.
abbrev pub locked_db : (until id : ℕ) → Db → Db
locked_db until id db = Users.update_row id (Users.locked until) db

-- The answer and the database after a wrong password for a user with a row.
abbrev pub after_failure : AuthPorts → (until : ℕ) → User → User → Db → Result LoginResult × Db
after_failure ports until user row db =
    if reaches (row.failed_login_count + 1) (lockout_attempts ports db)
    then (
      err (forbidden "account_locked"),
      locked_db until user.id (Users.update_row user.id Users.with_failure db),
    )
    else (err unauthorized, Users.update_row user.id Users.with_failure db)

-- The answer and the database of a run.
abbrev pub seen_of : {A : Type 0} → Result A × World → Result A × Db
seen_of r = (r.0, r.1.db)

module _ (ports : AuthPorts) (env : Env) (q : Quiet env) (until : ℕ) where
  get_config_i32-run :
      (w : World) (key : String) (default : ℤ)
      → get_config_i32 ports key default env w
        ≡ (ok (parsed ports.parse_i32 (some (Config.lookup key w.db.config)) default), tick w)
  unfolding get_config_i32 pure
  get_config_i32-run w key default =
      bind-run env w (attempt (Config.get key)) _ (config-run env w key (q w.calls))

  get_config_u64-run :
      (w : World) (key : String) (default : ℕ)
      → get_config_u64 ports key default env w
        ≡ (ok (parsed ports.parse_u64 (some (Config.lookup key w.db.config)) default), tick w)
  unfolding get_config_u64 pure
  get_config_u64-run w key default =
      bind-run env w (attempt (Config.get key)) _ (config-run env w key (q w.calls))

  lock_account-run :
      (w : World) (id : ℕ)
      → lock_end ports env w.db ≡ some until
      → lock_account ports id env w ≡ (
        err (forbidden "account_locked"),
        record { db = locked_db until id w.db; calls = w.calls + 1 + 1 },
      )
  unfolding lock_account ask lift Users.lock_until fail
  lock_account-run w id ends =
      bind-run env w (get_config_u64 ports _ _) _ (get_config_u64-run w _ _)
      ∙ ap
          (λ o.
            (lift (or_panic o)
                >>= (λ u. Users.lock_until id u >> fail (forbidden "account_locked")))
              env (tick w))
          ends
      ∙ bind-run env (tick w) (Users.lock_until id _) (λ _. fail _)
          (write-run env (tick w) _ (q (w.calls + 1)))

  abbrev once : ℕ → World → World
  once id w = record { db = Users.update_row id Users.with_failure w.db; calls = w.calls + 1 }

  -- The state after a failure that is counted, and locks the account or not.
  abbrev after_count : Bool → ℕ → World → Result (Unit {0}) × World
  after_count true id w = (
    err (forbidden "account_locked"),
    record { db = locked_db until id (once id w).db; calls = w.calls + 1 + 1 + 1 + 1 },
  )
  after_count false id w = (err unauthorized, tick (once id w))

  module _ (user row : User) (w : World)
      (found : find_row (Users.has_id user.id) w.db.users ≡ some row)
      (ends : lock_end ports env w.db ≡ some until) where
    increment-run :
        Users.increment_failed_login user.id env w
        ≡ (ok (row.failed_login_count + 1), (once user.id w))
    unfolding Users.increment_failed_login
    increment-run =
        step-run env w (q w.calls)
          (λ env n db. Users.counted_failure (find_row (Users.has_id user.id) db.users) user.id db)
        ∙ ap (λ o. settle (Users.counted_failure o user.id w.db) w) found

    abbrev locks : Bool
    locks = reaches (row.failed_login_count + 1) (lockout_attempts ports w.db)

    failed_login-run : failed_login ports user env w ≡ after_count locks user.id w
    unfolding failed_login fail
    failed_login-run =
        bind-run env w (Users.increment_failed_login user.id) _ increment-run
        ∙ bind-run env (once user.id w) (get_config_i32 ports _ _) _
            (get_config_i32-run (once user.id w) _ _)
        ∙ branch locks
      where
        branch :
            (b : Bool)
            → (if b then lock_account ports user.id else fail unauthorized) env
                (tick (once user.id w))
              ≡ after_count b user.id w
        branch true = lock_account-run (tick (once user.id w)) user.id ends
        branch false = refl

  refused :
      (user row : User) (w : World)
      → find_row (Users.has_id user.id) w.db.users ≡ some row
      → lock_end ports env w.db ≡ some until
      → seen_of ((failed_login ports user >> fail unauthorized) env w)
        ≡ after_failure ports until user row w.db
  unfolding ◌>>=◌ fail
  refused user row w found ends =
      ap (λ x. seen_of (continue x.0 x.1 (λ _. fail unauthorized) env))
        (failed_login-run user row w found ends)
      ∙ branch (reaches (row.failed_login_count + 1) (lockout_attempts ports w.db))
    where
      branch :
          (b : Bool)
          → seen_of (
              continue
                (after_count b user.id w).0
                (after_count b user.id w).1
                (λ _. fail {A = LoginResult} unauthorized)
                env)
            ≡ (if b
                then (
                  err (forbidden "account_locked"),
                  locked_db until user.id (Users.update_row user.id Users.with_failure w.db),
                )
                else (err unauthorized, Users.update_row user.id Users.with_failure w.db))
      branch true = refl
      branch false = refl

  -- A wrong password for an account that is not locked: one more failure is counted, and where
  -- the count reaches the configured number of attempts the account is locked until the end of the configured time.
  pub wrong_password :
      (w : World) (email : String) (password : Text) (user : User) (valid : Bool)
      → find_row (λ u. str_eq u.email email) w.db.users ≡ some user
      → find_row (Users.has_id user.id) w.db.users ≡ some user
      → lock_end ports env w.db ≡ some until
      → is_account_locked user env.now ≡ false
      → ports.verify password (unwrap_or user.password_hash invalid_hash) ≡ ok valid
      → (is_none user.password_hash || not valid) ≡ true
      → seen_of (login ports email password env w) ≡ after_failure ports until user user w.db
  unfolding login check_password Users.find_by_email ask lift
  wrong_password w email password user valid by_email by_id ends unlocked checked wrong =
      ap seen_of (
        bind-run env w (Users.find_by_email email) (λ o. login_of ports o password)
          (read-run env w (q w.calls) (λ db. find_row (λ u. str_eq u.email email) db.users)))
      ∙ ap (λ o. seen_of (login_of ports o password env (tick w))) by_email
      ∙ ap
          (λ b. seen_of (
            (if b then fail (forbidden "account_locked") else check_password ports user password)
              env (tick w)))
          unlocked
      ∙ ap seen_of (
          bind-run env (tick w)
            (lift (ports.verify password (unwrap_or user.password_hash invalid_hash))) _
            (ap (λ r. (r, tick w)) checked))
      ∙ ap
          (λ b. seen_of (
            (if b then failed_login ports user >> fail unauthorized else finish_login ports user)
              env (tick w)))
          wrong
      ∙ refused user user (tick w) by_id ends
