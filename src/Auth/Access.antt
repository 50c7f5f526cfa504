-- ===== src/Auth/Access.antt =====
-- Who logs in.
use ferum_board.Prelude.{
  ℕ, String, Text, ◌≡◌, refl, subst, Bool, true, false, not, ◌||◌, Option, none, some, arith,
  find_row, is_none, unwrap_or, if◌then◌else◌, str_eq,
}
use ferum_board.Domain.Error.{AppError, ok, unauthorized, forbidden}
use ferum_board.Domain.User.{User, is_account_locked, is_currently_banned}
use ferum_board.Store.{Db, Env}
use ferum_board.Exec.{World, lift, fail, ask, refuse_if, ◌>>◌}
use ferum_board.Exec.Runs.{refuse_if-ok, bind-ok, read-ok, lift-ok}
use ferum_board.Repo.Users
use ferum_board.Auth.{
  AuthPorts, LoginResult, failed_login, finish_login, check_password, login_of, login, invalid_hash,
}

-- The user of an address may log in with a password at a time.
pub record MayLogin (ports : AuthPorts) (db : Db) (email : String) (password : Text) (now : ℕ)
    : Type 0 where
  pub user : User
  pub found : find_row (λ u. str_eq u.email email) db.users ≡ some user
  pub unlocked : is_account_locked user now ≡ false
  pub hash : String
  pub has_password : user.password_hash ≡ some hash
  pub matches : ports.verify password hash ≡ ok true
  pub verified : user.is_email_verified ≡ true
  pub not_banned : is_currently_banned user now ≡ false

pub fail-ok :
    {A : Type 0} (env : Env) (w : World) {v : World} {a : A} (e : AppError)
    → fail e env w ≡ (ok a, v)
    → ⊥
unfolding fail
fail-ok env w e h = cc

pub ask-ok :
    {A : Type 0} (env : Env) (w : World) {v : World} {a : A} (f : Env → A)
    → ask f env w ≡ (ok a, v)
    → a ≡ f env
unfolding ask
ask-ok env w f h = cc

finish_login-ok :
    (ports : AuthPorts) (env : Env) (w : World) {v : World} {a : LoginResult} (user : User)
    → finish_login ports user env w ≡ (ok a, v)
    → (user.is_email_verified ≡ true) × (is_currently_banned user env.now ≡ false)
unfolding finish_login
finish_login-ok ports env w user h =
    let (x, u, h1, k1) =
      bind-ok env (refuse_if (not user.is_email_verified) (forbidden "email_not_verified")) _ w h in
    let (now, u2, h2, k2) = bind-ok env (ask (λ e. e.now)) _ u k1 in
    let (y, u3, h3, k3) =
      bind-ok env (refuse_if (is_currently_banned user now) (forbidden "account_suspended")) _ u2
        k2 in
    let b = refuse_if-ok env w (not user.is_email_verified) (forbidden "email_not_verified") h1 in
    let c = refuse_if-ok env u2 (is_currently_banned user now) (forbidden "account_suspended") h3 in
    (
      ground (arith, b),
      subst (λ t. is_currently_banned user t ≡ false) (ask-ok env u (λ e. e.now) h2) c,
    )

failed_login-never :
    (ports : AuthPorts) (env : Env) (w : World) {v : World} {a : LoginResult} (user : User)
    → (failed_login ports user >> fail unauthorized) env w ≡ (ok a, v)
    → ⊥
failed_login-never ports env w user h =
    let (x, u, h1, k1) = bind-ok env (failed_login ports user) (λ _. fail unauthorized) w h in
    fail-ok env u unauthorized k1

-- The two ways on from a comparison of the passwords.
pub compared :
    (ports : AuthPorts) (env : Env) (w : World) {v : World} {a : LoginResult} (user : User)
    (b : Bool)
    → (if b then failed_login ports user >> fail unauthorized else finish_login ports user) env w
      ≡ (ok a, v)
    → (b ≡ false) × (finish_login ports user env w ≡ (ok a, v))
compared ports env w user true h = absurd (failed_login-never ports env w user h)
compared ports env w user false h = (refl, h)

pub unlocked_way :
    (ports : AuthPorts) (env : Env) (w : World) {v : World} {a : LoginResult} (user : User)
    (password : Text) (b : Bool)
    → (if b then fail (forbidden "account_locked") else check_password ports user password) env w
      ≡ (ok a, v)
    → (b ≡ false) × (check_password ports user password env w ≡ (ok a, v))
unlocked_way ports env w user password true h =
    absurd (fail-ok env w (forbidden "account_locked") h)
unlocked_way ports env w user password false h = (refl, h)

-- What a comparison that lets a user in has compared.
matched :
    (ports : AuthPorts) (password : Text) (stored : Option String) (valid : Bool)
    → ports.verify password (unwrap_or stored invalid_hash) ≡ ok valid
    → (is_none stored || not valid) ≡ false
    → (hash : String) × (stored ≡ some hash) × (ports.verify password hash ≡ ok true)
matched ports password none valid h k = cc
matched ports password (some hash) true h k = (hash, refl, h)
matched ports password (some hash) false h k = cc

login_of-MayLogin :
    (ports : AuthPorts) (env : Env) (w : World) {v : World} {a : LoginResult} (db : Db)
    (email : String) (password : Text) (o : Option User)
    → find_row (λ u. str_eq u.email email) db.users ≡ o
    → login_of ports o password env w ≡ (ok a, v)
    → MayLogin ports db email password env.now
unfolding check_password
login_of-MayLogin ports env w db email password none found h = absurd (fail-ok env w unauthorized h)
login_of-MayLogin ports env w db email password (some user) found h =
    let (now, u, h1, k1) = bind-ok env (ask (λ e. e.now)) _ w h in
    let (unlocked, k2) = unlocked_way ports env u user password (is_account_locked user now) k1 in
    let (valid, u3, h3, k3) =
      bind-ok env (lift (ports.verify password (unwrap_or user.password_hash invalid_hash))) _ u
        k2 in
    let (right, k4) = compared ports env u3 user (is_none user.password_hash || not valid) k3 in
    let (hash, has, matches) =
      matched ports password user.password_hash valid (lift-ok env u _ h3).0 right in
    let (verified, clear) = finish_login-ok ports env u3 user k4 in
    record {
      user = user;
      found = found;
      unlocked =
          subst (λ t. is_account_locked user t ≡ false) (ask-ok env w (λ e. e.now) h1) unlocked;
      hash = hash;
      has_password = has;
      matches = matches;
      verified = verified;
      not_banned = clear;
    }

-- A login that succeeds is one of a user whom the address finds, whose account is not locked, whose
-- stored hash matches the password, whose address is verified and who is not banned at the time.
pub login-MayLogin :
    (ports : AuthPorts) (env : Env) (w v : World) (a : LoginResult) (email : String)
    (password : Text)
    → login ports email password env w ≡ (ok a, v)
    → MayLogin ports w.db email password env.now
unfolding login Users.find_by_email
login-MayLogin ports env w v a email password h =
    let (o, u, h1, k1) =
      bind-ok env (Users.find_by_email email) (λ o. login_of ports o password) w h in
    let (found, same) =
      read-ok env w (λ db. ok (find_row (λ u. str_eq u.email email) db.users)) h1 in
    login_of-MayLogin ports env u w.db email password o (got found) k1
  where
    got : {x y : Option User} → ok x ≡ ok y → x ≡ y
    got e = cc
