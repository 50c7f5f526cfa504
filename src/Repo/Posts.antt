-- ===== src/Repo/Posts.antt =====
-- backend/crates/ferum-infrastructure/src/repositories/post_repository.rs.
use ferum_board.Prelude.{
  ℕ, ◌+◌, ◌&&◌, not, Bool, true, false, Option, none, some, List, ◌∷◌, Text, map, keep, ◌==◌,
  find_row, update_rows,
}
use ferum_board.Domain.Error.{Result, ok, err, not_found}
use ferum_board.Domain.Forum.{Post, PostStatus}
use ferum_board.Store.{Db}
use ferum_board.Exec.{Exec, step, read}

-- backend/crates/ferum-domain/src/repositories/post_repository.rs.
pub record NewPost : Type 0 where
  pub thread_id : ℕ
  pub author_id : ℕ
  pub parent_id : Option ℕ
  pub content_md : Text
  pub content_html : Text
  pub status : PostStatus

abbrev pub has_id : ℕ → Post → Bool
has_id id p = p.id == id

abbrev pub row : ℕ → Db → Option Post
row id db = find_row (has_id id) db.posts

-- `UPDATE posts SET … WHERE id = …`.
abbrev pub update_row : ℕ → (Post → Post) → Db → Db
update_row id f db = record db { posts = update_rows (has_id id) f db.posts }

unfoldable pub find_by_id : ℕ → Exec (Option Post)
find_by_id id = read (λ db. ok (row id db))

-- The row of a new post, with the defaults of the table.
unfoldable pub inserted : NewPost → (id now : ℕ) → Post
inserted cmd id now = record {
  id = id;
  thread_id = cmd.thread_id;
  author_id = cmd.author_id;
  parent_id = cmd.parent_id;
  content_md = cmd.content_md;
  content_html = cmd.content_html;
  status = cmd.status;
  is_deleted = false;
  deleted_at = none;
  deleted_by_id = none;
  edited_at = none;
  edited_by_id = none;
  edit_count = 0;
  created_at = now;
}

abbrev pub insert_row : Post → Db → Db
insert_row p db = record db { posts = p ∷ db.posts }

unfoldable pub create : NewPost → Exec Post
unfolding inserted
create cmd =
    step (λ env n db. let p = inserted cmd (env.fresh n) env.now in ok (p, insert_row p db))

unfoldable pub edited : (content_md content_html : Text) (edited_by_id now : ℕ) → Post → Post
edited content_md content_html edited_by_id now p = record p {
  content_md = content_md;
  content_html = content_html;
  edited_at = some now;
  edited_by_id = some edited_by_id;
  edit_count = p.edit_count + 1;
}

abbrev pub updated_post : Option Post → ℕ → (Post → Post) → Db → Result (Post × Db)
updated_post none id f db = err not_found
updated_post (some p) id f db = ok (f p, update_row id f db)

unfoldable pub update_content : ℕ → (content_md content_html : Text) → ℕ → Exec Post
unfolding edited
update_content id content_md content_html edited_by_id = step (λ env n db.
    updated_post (row id db) id (edited content_md content_html edited_by_id env.now) db)

unfoldable pub deleted : (deleted_by_id now : ℕ) → Post → Post
deleted deleted_by_id now p = record p {
  is_deleted = true;
  deleted_at = some now;
  deleted_by_id = some deleted_by_id;
}

unfoldable pub soft_delete : (id deleted_by_id : ℕ) → Exec (Unit {0})
unfolding deleted
soft_delete id deleted_by_id =
    step (λ env n db. ok (tt, update_row id (deleted deleted_by_id env.now) db))

-- The contents of a thread's posts that are not deleted.
unfoldable pub content_md_by_thread : ℕ → Exec (List Text)
content_md_by_thread thread_id = read (λ db.
    ok
      (map (λ p. p.content_md) (keep (λ p. p.thread_id == thread_id && not p.is_deleted) db.posts)))

abbrev pub with_status : PostStatus → Post → Post
with_status s p = record p { status = s }

abbrev pub status_set : Option Post → ℕ → PostStatus → Db → Result ((Unit {0}) × Db)
status_set none id s db = err not_found
status_set (some p) id s db = ok (tt, update_row id (with_status s) db)

unfoldable pub set_status : ℕ → PostStatus → Exec (Unit {0})
set_status id s = step (λ env n db. status_set (row id db) id s db)
