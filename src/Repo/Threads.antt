-- ===== src/Repo/Threads.antt =====
-- backend/crates/ferum-infrastructure/src/repositories/thread_repository.rs, and `find_by_id` of
-- category_repository.rs.
use ferum_board.Prelude.{
  ℕ, String, Bool, true, false, not, Option, none, some, List, [], ◌∷◌, ◌++◌, ◌&&◌, ◌||◌, Text,
  ◌==◌, str_eq, find_row, update_rows, any, keep, take, leb, is_none, if◌then◌else◌,
}
use ferum_board.Prelude.Int.{ℤ, pos, pos_part, as_i64, ◌+ℤ◌}
use ferum_board.Domain.Error.{Result, ok, err, not_found}
use ferum_board.Domain.Forum.{Thread, ThreadStatus, open_thread, Category}
use ferum_board.Store.{Db}
use ferum_board.Exec.{Exec, step, read, write, db_error}

-- The fields of `UpdateThread`: each is changed where it is given.
pub record UpdateThread : Type 0 where
  pub title : Option Text
  pub status : Option ThreadStatus
  pub is_pinned : Option Bool
  pub is_solved : Option Bool
  pub best_answer_id : Option (Option ℕ)
  pub category_id : Option ℕ
  pub deleted_by_id : Option ℕ
  pub deleted_at : Option ℕ

abbrev pub no_change : UpdateThread
no_change = record {
  title = none;
  status = none;
  is_pinned = none;
  is_solved = none;
  best_answer_id = none;
  category_id = none;
  deleted_by_id = none;
  deleted_at = none;
}

-- `if let Some(v) = patch.field { active.field = Set(v) }`.
abbrev pub set {ℓ} : {A : Type ℓ} → Option A → A → A
set none old = old
set (some v) old = v

-- The same for a column that may be null: `Set(Some(v))`.
abbrev pub set_some : Option ℕ → Option ℕ → Option ℕ
set_some none old = old
set_some (some v) old = some v

abbrev pub has_id : ℕ → Thread → Bool
has_id id t = t.id == id

abbrev pub row : ℕ → Db → Option Thread
row id db = find_row (has_id id) db.threads

abbrev pub update_row : ℕ → (Thread → Thread) → Db → Db
update_row id f db = record db { threads = update_rows (has_id id) f db.threads }

unfoldable pub find_by_id : ℕ → Exec (Option Thread)
find_by_id id = read (λ db. ok (row id db))

unfoldable pub find_by_slug : String → Exec (Option Thread)
find_by_slug slug = read (λ db. ok (find_row (λ t. str_eq t.slug slug) db.threads))

pub record NewThread : Type 0 where
  pub id : ℕ
  pub category_id : ℕ
  pub author_id : ℕ
  pub title : Text
  pub slug : String

-- The columns that are not given have the table's defaults.
abbrev pub opened : NewThread → ℕ → Thread
opened cmd now = record {
  id = cmd.id;
  category_id = cmd.category_id;
  author_id = cmd.author_id;
  title = cmd.title;
  slug = cmd.slug;
  status = open_thread;
  is_pinned = false;
  is_solved = false;
  best_answer_id = none;
  view_count = 0;
  reply_count = pos 0;
  last_post_at = none;
  created_at = now;
  deleted_at = none;
  deleted_by_id = none;
}

-- The identifier and the slug are unique; the category and the author have to exist.
abbrev pub stored : Thread → Db → Result (Thread × Db)
stored t db =
    if any (λ x. has_id t.id x || str_eq x.slug t.slug) db.threads
    then err db_error
    else if any (λ c. c.id == t.category_id) db.categories
        && any (λ u. u.id == t.author_id) db.users
    then ok (t, record db { threads = t ∷ db.threads })
    else err db_error

unfoldable pub create : NewThread → Exec Thread
create cmd = step (λ env n db. stored (opened cmd env.now) db)

unfoldable pub patched : UpdateThread → Thread → Thread
patched patch t = record t {
  title = set patch.title t.title;
  status = set patch.status t.status;
  is_pinned = set patch.is_pinned t.is_pinned;
  is_solved = set patch.is_solved t.is_solved;
  best_answer_id = set patch.best_answer_id t.best_answer_id;
  category_id = set patch.category_id t.category_id;
  deleted_by_id = set_some patch.deleted_by_id t.deleted_by_id;
  deleted_at = set_some patch.deleted_at t.deleted_at;
}

abbrev updated : Option Thread → ℕ → UpdateThread → Db → Result (Thread × Db)
updated none id patch db = err not_found
updated (some t) id patch db = ok (patched patch t, update_row id (patched patch) db)

unfoldable pub update : ℕ → UpdateThread → Exec Thread
update id patch = step (λ env n db. updated (row id db) id patch db)

unfoldable pub with_reply : ℤ → Option ℕ → Thread → Thread
with_reply delta last_post_at t = record t {
  reply_count = t.reply_count +ℤ delta;
  last_post_at = set_some last_post_at t.last_post_at;
}

unfoldable pub update_reply_stats : ℕ → ℤ → Option ℕ → Exec (Unit {0})
unfolding with_reply
update_reply_stats id delta last_post_at = write (update_row id (with_reply delta last_post_at))

-- `ORDER BY is_pinned DESC, last_post_at DESC NULLS LAST`.
abbrev pub newer_or_same : Option ℕ → Option ℕ → Bool
newer_or_same (some a) (some b) = leb b a
newer_or_same (some a) none = true
newer_or_same none (some b) = false
newer_or_same none none = true

abbrev pub ranks_first : Thread → Thread → Bool
ranks_first a b =
    if a.is_pinned
    then (if b.is_pinned then newer_or_same a.last_post_at b.last_post_at else true)
    else (if b.is_pinned then false else newer_or_same a.last_post_at b.last_post_at)

unfoldable pub insert_ranked : Thread → List Thread → List Thread
insert_ranked t [] = t ∷ []
insert_ranked t (u ∷ us) =
    let later = u ∷ insert_ranked t us in if ranks_first t u then t ∷ u ∷ us else later

unfoldable pub ranked : List Thread → List Thread
unfolding insert_ranked
ranked [] = []
ranked (t ∷ ts) = insert_ranked t (ranked ts)

abbrev pub in_category : ℕ → Thread → Bool
in_category c t = t.category_id == c

-- The first threads of each category, by rank; a partition that is listed twice is one.
unfoldable pub recent_rows : List ℕ → ℕ → List Thread → List Thread
unfolding ranked
recent_rows [] limit ts = []
recent_rows (c ∷ cs) limit ts =
    let rest = recent_rows cs limit ts in
    if any (λ d. d == c) cs
    then rest
    else take limit (ranked (keep (λ t. in_category c t && is_none t.deleted_at) ts)) ++ rest

-- `ORDER BY category_id`.
unfoldable pub insert_id : ℕ → List ℕ → List ℕ
insert_id i [] = i ∷ []
insert_id i (j ∷ js) = let later = j ∷ insert_id i js in if leb i j then i ∷ j ∷ js else later

unfoldable pub by_id : List ℕ → List ℕ
unfolding insert_id
by_id [] = []
by_id (i ∷ is) = insert_id i (by_id is)

-- `rn <= n as i64`: a limit that turns negative lets no row through.
unfoldable pub rows_limit : ℕ → ℕ
unfolding as_i64
rows_limit n = pos_part (as_i64 n)

-- Rows of the same rank come in the order in which the call meets them.
unfoldable pub list_recent_by_categories : List ℕ → ℕ → Exec (List Thread)
unfolding recent_rows by_id rows_limit
list_recent_by_categories ids limit_per_category = step (λ env n db.
    ok
      (recent_rows (by_id ids) (rows_limit limit_per_category) (env.scan_threads n db.threads), db))

-- `CategoryRepository::find_by_id`.
unfoldable pub find_category : ℕ → Exec (Option Category)
find_category id = read (λ db. ok (find_row (λ c. c.id == id) db.categories))

abbrev pub thumbnail_of : ℕ → ℕ × Text → Bool
thumbnail_of thread_id r = r.0 == thread_id

abbrev pub key_of : Option (ℕ × Text) → Option Text
key_of none = none
key_of (some r) = some r.1

unfoldable pub find_thumbnail_key : ℕ → Exec (Option Text)
find_thumbnail_key thread_id =
    read (λ db. ok (key_of (find_row (thumbnail_of thread_id) db.social.thumbnails)))

abbrev pub without_thumbnail : ℕ → List (ℕ × Text) → List (ℕ × Text)
without_thumbnail thread_id rows = keep (λ r. not (thumbnail_of thread_id r)) rows

-- A thread has one thumbnail, which a new one replaces.
unfoldable pub set_thumbnail : ℕ → Text → Exec (Unit {0})
set_thumbnail thread_id key = step (λ env n db.
    if any (has_id thread_id) db.threads
    then ok (
      tt,
      record db {
        social = record db.social {
          thumbnails = (thread_id, key) ∷ without_thumbnail thread_id db.social.thumbnails;
        };
      },
    )
    else err db_error)

unfoldable pub remove_thumbnail : ℕ → Exec (Unit {0})
remove_thumbnail thread_id = write (λ db. record db {
  social = record db.social { thumbnails = without_thumbnail thread_id db.social.thumbnails };
})
