-- ===== src/Repo/Users.antt =====
-- backend/crates/ferum-infrastructure/src/repositories/user_repository.rs.
use ferum_board.Prelude.{
  ℕ, ◌+◌, ◌/◌, String, Bool, true, false, ◌||◌, Option, none, some, Text, ◌==◌, ltb, any, ◌∷◌,
  if◌then◌else◌, find_row, update_rows, str_eq, is_some,
}
use ferum_board.Prelude.Int.{ℤ, pos, ◌+ℤ◌, pos_part}
use ferum_board.Domain.Error.{Result, ok, err, not_found}
use ferum_board.Domain.User.{User, TrustLevel, new}
use ferum_board.Store.{Db}
use ferum_board.Exec.{Exec, read, write, step, db_error}
use ferum_board.Text.{text_eq}

abbrev pub has_id : ℕ → User → Bool
has_id id u = u.id == id

abbrev pub update_row : ℕ → (User → User) → Db → Db
update_row id f db = record db { users = update_rows (has_id id) f db.users }

unfoldable pub find_by_id : ℕ → Exec (Option User)
find_by_id id = read (λ db. ok (find_row (has_id id) db.users))

unfoldable pub find_by_username : Text → Exec (Option User)
find_by_username name = read (λ db. ok (find_row (λ u. text_eq u.username name) db.users))

-- `GREATEST(0, post_count + delta)`.
unfoldable pub with_post_count : ℤ → User → User
with_post_count delta u = record u { post_count = pos_part (pos u.post_count +ℤ delta) }

unfoldable pub increment_post_count : ℕ → ℤ → Exec (Unit {0})
unfolding with_post_count
increment_post_count user_id delta = write (update_row user_id (with_post_count delta))

abbrev least : ℕ → ℕ → ℕ
least a b = if ltb b a then b else a

-- `GREATEST(0, LEAST(100, trust_score + amount))`.
unfoldable pub with_trust_score : ℤ → User → User
with_trust_score amount u = record u {
  trust_score = least 100 (pos_part (pos u.trust_score +ℤ amount));
}

unfoldable pub increment_trust_score : ℕ → ℤ → Exec (Unit {0})
unfolding with_trust_score
increment_trust_score user_id amount = write (update_row user_id (with_trust_score amount))

-- The address is stored in lower case, in which the caller gives it.
unfoldable pub find_by_email : String → Exec (Option User)
find_by_email email = read (λ db. ok (find_row (λ u. str_eq u.email email) db.users))

abbrev pub with_failure : User → User
with_failure u = record u { failed_login_count = u.failed_login_count + 1 }

abbrev pub counted_failure : Option User → ℕ → Db → Result (ℕ × Db)
counted_failure none id db = err not_found
counted_failure (some u) id db = ok (u.failed_login_count + 1, update_row id with_failure db)

-- The count after the failure.
unfoldable pub increment_failed_login : ℕ → Exec ℕ
increment_failed_login id = step (λ env n db. counted_failure (find_row (has_id id) db.users) id db)

abbrev pub without_failures : User → User
without_failures u = record u { failed_login_count = 0; locked_until = none }

unfoldable pub reset_failed_login : ℕ → Exec (Unit {0})
reset_failed_login id = write (update_row id without_failures)

abbrev pub locked : ℕ → User → User
locked until u = record u { locked_until = some until }

unfoldable pub lock_until : ℕ → ℕ → Exec (Unit {0})
lock_until id until = write (update_row id (locked until))

abbrev pub verified : User → User
verified u = record u { is_email_verified = true }

unfoldable pub set_email_verified : ℕ → Exec (Unit {0})
set_email_verified id = write (update_row id verified)

abbrev pub with_trust_level : TrustLevel → User → User
with_trust_level level u = record u { trust_level = level }

-- An update of one row by its key fails where there is no row.
unfoldable pub set_trust_level : ℕ → TrustLevel → Exec (Unit {0})
set_trust_level id level = step (λ env n db.
    if is_some (find_row (has_id id) db.users)
    then ok (tt, update_row id (with_trust_level level) db)
    else err db_error)

abbrev pub with_password_hash : String → User → User
with_password_hash hash u = record u { password_hash = some hash }

unfoldable pub set_password_hash : ℕ → String → Exec (Unit {0})
set_password_hash id hash = write (update_row id (with_password_hash hash))

abbrev pub day_ms : ℕ
day_ms = 86400000

-- Whether the day of a visit is an earlier one.
abbrev is_new_day : Option ℕ → ℕ → Bool
is_new_day none now = true
is_new_day (some t) now = ltb (t / day_ms) (now / day_ms)

abbrev pub seen : ℕ → User → User
seen now u = record u {
  last_seen_at = some now;
  days_visited = u.days_visited + (if is_new_day u.last_seen_at now then 1 else 0);
}

unfoldable pub update_last_seen : ℕ → Exec (Unit {0})
update_last_seen id = step (λ env n db. ok (tt, update_row id (seen env.now) db))

abbrev new_user : Text → String → String → ℕ → User
new_user name email hash id = record {
  id = id;
  username = name;
  email = email;
  is_email_verified = false;
  password_hash = some hash;
  trust_level = new;
  trust_score = 0;
  post_count = 0;
  days_visited = 0;
  is_banned = false;
  banned_until = none;
  warn_count = 0;
  failed_login_count = 0;
  locked_until = none;
  last_seen_at = none;
}

-- The name and the address are unique.
unfoldable pub create : Text → String → String → Exec User
create name email hash = step (λ env n db.
    let u = new_user name email hash (env.fresh n) in
    if any (λ x. text_eq x.username name || str_eq x.email email) db.users
    then err db_error
    else ok (u, record db { users = u ∷ db.users }))

abbrev pub warned : User → User
warned u = record u { warn_count = u.warn_count + 1 }

-- `update` with a change of the count of warnings alone: the row is read back.
unfoldable pub update_warn_count : ℕ → Exec (Unit {0})
update_warn_count id = step (λ env n db.
    if is_some (find_row (has_id id) db.users)
    then ok (tt, update_row id warned db)
    else err not_found)

abbrev pub banned : Option ℕ → User → User
banned until u = record u { is_banned = true; banned_until = until }

-- `update` with a ban.
unfoldable pub update_ban : ℕ → Option ℕ → Exec (Unit {0})
update_ban id until = step (λ env n db.
    if is_some (find_row (has_id id) db.users)
    then ok (tt, update_row id (banned until) db)
    else err db_error)

abbrev pub unbanned : User → User
unbanned u = record u { is_banned = false; banned_until = none }

-- `update` with the end of a ban.
unfoldable pub lift_ban : ℕ → Exec (Unit {0})
lift_ban id = step (λ env n db.
    if is_some (find_row (has_id id) db.users)
    then ok (tt, update_row id unbanned db)
    else err db_error)
