-- ===== src/PostUseCase/Change.antt =====
-- `edit` and `delete` of backend/crates/ferum-application/src/usecases/post_usecase.rs.
use ferum_board.Prelude.{ℕ, none, [], ◌∷◌, Text, if◌then◌else◌}
use ferum_board.Prelude.Int.{negsuc}
use ferum_board.Domain.AuthUser.{AuthUser}
use ferum_board.Domain.Forum.{Post, is_pending}
use ferum_board.Domain.Event.{post_deleted}
use ferum_board.Store.{an_id, a_text}
use ferum_board.Exec.{Exec, pure, lift, swallow, ask, before_hook, publish, ◌>>=◌, ◌>>◌}
use ferum_board.Repo.Posts
use ferum_board.Repo.Threads
use ferum_board.Repo.Users
use ferum_board.Repo.Config
use ferum_board.Permission
use ferum_board.PostUseCase.{
  some_post, some_thread, check_content, hook_context, render_content, sync_attachment_refs,
  default_post_edit_window_hours,
}

-- The checks of `edit`: the post as it was, and the new text rendered.
unfoldable pub prepare_edit : AuthUser → ℕ → Text → Exec (Post × Text)
prepare_edit actor id content_md = do
  check_content content_md
  post ← some_post id
  thread ← some_thread post.thread_id
  edit_window_hours ← Config.get_config_i64 "post_edit_window_hours" default_post_edit_window_hours
  now ← ask (λ env. env.now)
  lift (Permission.can_edit_post actor post thread.category_id edit_window_hours now)
  before_hook (
      hook_context "before_post_edit" actor (
        ("post_id", an_id id)
        ∷ ("content_md", a_text content_md)
        ∷ ("thread_id", an_id post.thread_id)
        ∷ ("category_id", an_id thread.category_id)
        ∷ []))
  content_html ← render_content content_md
  pure (post, content_html)

-- What `edit` does once the row is updated.
unfoldable pub finish_edit : (old_content new_content : Text) → Post → Exec Post
finish_edit old_content new_content updated = do
  sync_attachment_refs old_content new_content
  pure updated

unfoldable pub edit : AuthUser → ℕ → Text → Exec Post
unfolding prepare_edit finish_edit
edit actor id content_md = do
  (post, content_html) ← prepare_edit actor id content_md
  updated ← Posts.update_content id content_md content_html actor.id
  finish_edit post.content_md content_md updated

unfoldable pub prepare_delete : AuthUser → ℕ → Exec Post
prepare_delete actor id = do
  post ← some_post id
  thread ← some_thread post.thread_id
  now ← ask (λ env. env.now)
  lift (Permission.can_delete_post actor post thread.category_id now)
  before_hook (
      hook_context "before_post_delete" actor (
        ("post_id", an_id id)
        ∷ ("thread_id", an_id post.thread_id)
        ∷ ("category_id", an_id thread.category_id)
        ∷ ("author_id", an_id post.author_id)
        ∷ []))
  pure post

-- `if !was_already_deleted { … }`: the attachments of a post that goes.
unfoldable pub release_refs : Post → Exec (Unit {0})
release_refs post = if post.is_deleted then pure tt else sync_attachment_refs post.content_md []

-- A published post counts for its thread and its author no more.
unfoldable pub uncount : Post → Exec (Unit {0})
uncount post = do
  swallow (Threads.update_reply_stats post.thread_id (negsuc 0) none)
  swallow (Users.increment_post_count post.author_id (negsuc 0))

-- What `delete` does once the row is marked.
unfoldable pub finish_delete : AuthUser → ℕ → Post → Exec (Unit {0})
unfolding release_refs uncount
finish_delete actor id post = do
  release_refs post
  publish (post_deleted id actor.id)
  if is_pending post.status then pure tt else uncount post

unfoldable pub delete : AuthUser → ℕ → Exec (Unit {0})
unfolding prepare_delete finish_delete
delete actor id = do
  post ← prepare_delete actor id
  Posts.soft_delete id actor.id
  finish_delete actor id post
