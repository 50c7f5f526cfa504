-- ===== src/Repo/Tags.antt =====
-- backend/crates/ferum-infrastructure/src/repositories/tag_repository.rs, with the keys of its two tables.
use ferum_board.Prelude.{
  ℕ, Bool, not, ◌&&◌, ◌||◌, Option, List, [], ◌∷◌, ◌==◌, any, all, keep, find_row, Text,
  if◌then◌else◌,
}
use ferum_board.Domain.Error.{Result, ok, err}
use ferum_board.Domain.Desk.{Tag}
use ferum_board.Store.{Db, Labels}
use ferum_board.Exec.{Exec, read, step, write, pure, db_error, ◌>>=◌, ◌>>◌}
use ferum_board.Text.{text_eq}

abbrev pub has_slug : Text → Tag → Bool
has_slug slug t = text_eq t.slug slug

abbrev with_labels : Labels → Db → Db
with_labels l db = record db { labels = l }

unfoldable pub find_by_slug : Text → Exec (Option Tag)
find_by_slug slug = read (λ db. ok (find_row (has_slug slug) db.labels.tags))

-- Identifiers, names and slugs are unique.
abbrev clashes : Tag → Tag → Bool
clashes t x = x.id == t.id || (text_eq x.name t.name || text_eq x.slug t.slug)

unfoldable pub create : Tag → Exec Tag
create t = step (λ env n db.
    if any (clashes t) db.labels.tags
    then err db_error
    else ok (t, with_labels (record db.labels { tags = t ∷ db.labels.tags }) db))

abbrev pub is_row : (thread_id tag_id : ℕ) → ℕ × ℕ → Bool
is_row thread_id tag_id r = r.0 == thread_id && r.1 == tag_id

-- `ON CONFLICT DO NOTHING`, row by row.
unfoldable pub with_rows : ℕ → List ℕ → List (ℕ × ℕ) → List (ℕ × ℕ)
with_rows thread_id [] rows = rows
with_rows thread_id (t ∷ ts) rows =
    with_rows thread_id ts (if any (is_row thread_id t) rows then rows else (thread_id, t) ∷ rows)

-- The foreign keys of the rows.
abbrev pub known : ℕ → List ℕ → Db → Bool
known thread_id tag_ids db =
    any (λ t. t.id == thread_id) db.threads
    && all (λ i. any (λ t. t.id == i) db.labels.tags) tag_ids

abbrev assigned : ℕ → List ℕ → Db → Result (Unit {0} × Db)
assigned thread_id tag_ids db =
    if known thread_id tag_ids db
    then ok (
      tt,
      with_labels
          (record db.labels { thread_tags = with_rows thread_id tag_ids db.labels.thread_tags }) db,
    )
    else err db_error

unfoldable pub assign_to_thread : ℕ → List ℕ → Exec (Unit {0})
unfolding with_rows
assign_to_thread thread_id [] = pure tt
assign_to_thread thread_id (t ∷ ts) = step (λ env n db. assigned thread_id (t ∷ ts) db)

-- The first of two statements, which stays done where the second fails.
unfoldable pub clear_thread : ℕ → Exec (Unit {0})
clear_thread thread_id = write (λ db.
    with_labels
      (record db.labels { thread_tags = keep (λ r. not (r.0 == thread_id)) db.labels.thread_tags })
      db)

unfoldable pub replace_thread_tags : ℕ → List ℕ → Exec (Unit {0})
unfolding ◌>>=◌ clear_thread assign_to_thread
replace_thread_tags thread_id tag_ids = do
  clear_thread thread_id
  assign_to_thread thread_id tag_ids
