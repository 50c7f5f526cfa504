-- ===== src/Repo/Files.antt =====
-- backend/crates/ferum-infrastructure/src/repositories/stored_file_repository.rs.
use ferum_board.Prelude.{
  ℕ, ◌+◌, ◌-◌, ◌&&◌, String, Bool, false, Option, none, some, ◌∷◌, Text, ◌==◌, leb, if◌then◌else◌,
  is_some, find_row, update_rows, keep, length, total,
}
use ferum_board.Domain.Error.{ok}
use ferum_board.Store.{Db, StoredFile}
use ferum_board.Exec.{Exec, step, read, write}
use ferum_board.Text.{text_eq}

pub record UploadUsage : Type 0 where
  pub file_count : ℕ
  pub total_bytes : ℕ

abbrev pub has_key : Text → StoredFile → Bool
has_key key f = text_eq f.key key

abbrev pub update_row : Text → (StoredFile → StoredFile) → Db → Db
update_row key f db = record db { files = update_rows (has_key key) f db.files }

abbrev pub is_by : ℕ → Option ℕ → Bool
is_by id none = false
is_by id (some u) = u == id

unfoldable pub usage_since : (uploaded_by_id since : ℕ) → Exec UploadUsage
usage_since uploaded_by_id since = read (λ db.
    let rows =
      keep (λ f. is_by uploaded_by_id f.uploaded_by_id && leb since f.created_at) db.files in
    ok (record { file_count = length rows; total_bytes = total (λ f. f.size) rows }))

abbrev pub plus_one : StoredFile → StoredFile
plus_one f = record f { ref_count = f.ref_count + 1 }

-- `GREATEST(ref_count - 1, 0)`.
abbrev pub minus_one : StoredFile → StoredFile
minus_one f = record f { ref_count = f.ref_count - 1 }

-- For the callers that drop the count which the source returns.
unfoldable pub decrement_ref : Text → Exec (Unit {0})
decrement_ref key = write (update_row key minus_one)

-- The count that is left, zero where there is no row.
abbrev pub count_left : Option StoredFile → ℕ
count_left none = 0
count_left (some f) = f.ref_count - 1

-- `decrement_ref` with the count that it returns.
unfoldable pub release_ref : Text → Exec ℕ
release_ref key =
    step
      (λ env n db. ok (count_left (find_row (has_key key) db.files), update_row key minus_one db))

unfoldable pub increment_ref : Text → Exec (Unit {0})
increment_ref key = write (update_row key plus_one)

abbrev pub new_file : Text → String → ℕ → ℕ → Option ℕ → ℕ → StoredFile
new_file key content_type size ref_count by now = record {
  key = key;
  content_type = content_type;
  size = size;
  ref_count = ref_count;
  uploaded_by_id = by;
  created_at = now;
}

abbrev pub stored : Text → Db → Bool
stored key db = is_some (find_row (has_key key) db.files)

abbrev pub insert_row : StoredFile → Db → Db
insert_row f db = record db { files = f ∷ db.files }

-- Inserted with one reference, or one reference more.
unfoldable pub upsert_and_ref : Text → String → ℕ → Option ℕ → Exec (Unit {0})
upsert_and_ref key content_type size by = step (λ env n db. ok (
  tt,
  if stored key db
      then update_row key plus_one db
      else insert_row (new_file key content_type size 1 by env.now) db,
))

-- Inserted with no reference; a key that exists stays as it is.
unfoldable pub upsert_staged : Text → String → ℕ → Option ℕ → Exec (Unit {0})
upsert_staged key content_type size by = step (λ env n db.
    ok (
      tt,
      if stored key db then db else insert_row (new_file key content_type size 0 by env.now) db,
    ))
