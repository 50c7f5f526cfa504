-- ===== src/Auth/Locked.antt =====
-- An account that too many wrong passwords have locked.
use ferum_board.Prelude.{
  ℕ, ◌+◌, ◌*◌, String, Text, ◌≡◌, refl, ap, ◌∙◌, Bool, true, false, not, ◌||◌, Option, none, some,
  List, [], ◌∷◌, arith, find_row, update_rows, is_none, unwrap_or, if◌then◌else◌, str_eq, ◌<◌, ◌==◌,
  ==-refl,
}
use ferum_board.Prelude.Int.{pos, as_i64-pos}
use ferum_board.Domain.Error.{Result, ok, err, unauthorized, forbidden}
use ferum_board.Domain.User.{User, is_account_locked}
use ferum_board.Store.{Db, Env}
use ferum_board.Exec.{World, tick, fail, ask}
use ferum_board.Exec.Runs.{Quiet, bind-run, read-run}
use ferum_board.Repo.Users
use ferum_board.Auth.{
  AuthPorts, LoginResult, reaches, check_password, login_of, login, invalid_hash,
}
use ferum_board.Auth.Lockout.{
  seen_of, lockout_attempts, lockout_minutes, lock_end, locked_db, wrong_password,
}

module _ {A : Type 0} (p q : A → Bool) (f : A → A) (same : (x : A) → p (f x) ≡ p x) where
  abbrev pub changed : Option A → Option A
  changed none = none
  changed (some x) = some (if q x then f x else x)

  pub find-update_rows : (xs : List A) → find_row p (update_rows q f xs) ≡ changed (find_row p xs)
  unfolding find_row update_rows
  find-update_rows [] = refl
  find-update_rows (x ∷ xs) = ground (arith, same x, find-update_rows xs)

module _ (ports : AuthPorts) (env : Env) (q : Quiet env) where
  -- Any password, for an account that is locked.
  locked_login :
      (w : World) (email : String) (password : Text) (user : User)
      → find_row (λ u. str_eq u.email email) w.db.users ≡ some user
      → is_account_locked user env.now ≡ true
      → seen_of (login ports email password env w) ≡ (err (forbidden "account_locked"), w.db)
  unfolding login Users.find_by_email ask fail
  locked_login w email password user by_email locked =
      ap seen_of (
        bind-run env w (Users.find_by_email email) (λ o. login_of ports o password)
          (read-run env w (q w.calls) (λ db. find_row (λ u. str_eq u.email email) db.users)))
      ∙ ap (λ o. seen_of (login_of ports o password env (tick w))) by_email
      ∙ ap
          (λ b. seen_of (
            (if b then fail (forbidden "account_locked") else check_password ports user password)
              env (tick w)))
          locked

-- The row of a user after a failure that locks the account.
locked_row :
    (until : ℕ) (db : Db) (email : String) (user : User)
    → find_row (λ u. str_eq u.email email) db.users ≡ some user
    → find_row
        (λ u. str_eq u.email email)
        (locked_db until user.id (Users.update_row user.id Users.with_failure db)).users
      ≡ some (Users.locked until (Users.with_failure user))
locked_row until db email user h =
    find-update_rows (λ u. str_eq u.email email) (Users.has_id user.id) (Users.locked _) (λ u. refl)
      _
    ∙ ap (changed (λ u. str_eq u.email email) (Users.has_id user.id) (Users.locked _) (λ u. refl)) (
        find-update_rows (λ u. str_eq u.email email) (Users.has_id user.id) Users.with_failure
          (λ u. refl) db.users
        ∙ ap
            (changed (λ u. str_eq u.email email) (Users.has_id user.id) Users.with_failure
              (λ u. refl))
            h
        ∙ own_row Users.with_failure user user (==-refl user.id))
    ∙ own_row (Users.locked _) (Users.with_failure user) user (==-refl user.id)
  where
    own_row :
        (f : User → User) (x u : User)
        → (x.id == u.id) ≡ true
        → some (if x.id == u.id then f x else x) ≡ some (f x)
    own_row f x u e = ap (λ (b : Bool). some (if b then f x else x)) e

abbrev pub minute_ms : ℕ
minute_ms = 60000

-- Where a wrong password brings a user's count of failures to the configured number, every later login
-- with the address is refused as locked and changes nothing, whatever the password, until the configured
-- time after that failure has passed. The configured minutes are below 2^63, adding them to the time of
-- the failure gives the moment so many minutes later, no call fails, the user's identifier and address
-- find the same row, the account is not locked before, the verification of the wrong password answers,
-- and nothing else happens to the database in between.
pub lockout_holds :
    (ports : AuthPorts) (env env' : Env) (w w' : World) (email : String) (password guess : Text)
    (user : User) (valid : Bool)
    → Quiet env
    → Quiet env'
    → find_row (λ u. str_eq u.email email) w.db.users ≡ some user
    → find_row (Users.has_id user.id) w.db.users ≡ some user
    → is_account_locked user env.now ≡ false
    → ports.verify password (unwrap_or user.password_hash invalid_hash) ≡ ok valid
    → (is_none user.password_hash || not valid) ≡ true
    → lockout_minutes ports w.db < 9223372036854775808
    → ports.add_minutes env.now (pos (lockout_minutes ports w.db))
      ≡ some (env.now + lockout_minutes ports w.db * minute_ms)
    → reaches (user.failed_login_count + 1) (lockout_attempts ports w.db) ≡ true
    → w'.db ≡ (login ports email password env w).1.db
    → env'.now < env.now + lockout_minutes ports w.db * minute_ms
    → seen_of (login ports email guess env' w') ≡ (err (forbidden "account_locked"), w'.db)
unfolding is_account_locked
lockout_holds ports env env' w w' email password guess user valid q q' by_email by_id unlocked
      checked wrong in_range adds many same soon =
    locked_login ports env' q' w' email guess _
      (ap (λ (d : Db). find_row (λ u. str_eq u.email email) d.users) (same ∙ after)
        ∙ locked_row until w.db email user by_email)
      (ground (arith, soon))
  where
    until : ℕ
    until = env.now + lockout_minutes ports w.db * minute_ms

    ends : lock_end ports env w.db ≡ some until
    ends = ap (ports.add_minutes env.now) (as_i64-pos (lockout_minutes ports w.db) in_range) ∙ adds

    either : (x y : Result LoginResult × Db) → Bool → Result LoginResult × Db
    either x y b = if b then x else y

    after :
        (login ports email password env w).1.db
        ≡ locked_db until user.id (Users.update_row user.id Users.with_failure w.db)
    after =
        ap (λ (r : Result LoginResult × Db). r.1)
          (wrong_password ports env q until w email password user valid by_email by_id ends unlocked
            checked wrong)
        ∙ ap
            (λ b.
              (either
                (
                  err (forbidden "account_locked"),
                  locked_db until user.id (Users.update_row user.id Users.with_failure w.db),
                )
                (err unauthorized, Users.update_row user.id Users.with_failure w.db) b).1)
            many
