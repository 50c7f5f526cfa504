-- ===== src/PostUseCase/Queue.antt =====
-- `approve_post` and `reject_post` of backend/crates/ferum-application/src/usecases/post_usecase.rs: the
-- moderation queue.
use ferum_board.Prelude.{ℕ, String, not, ◌&&◌, Option, some, [], Text}
use ferum_board.Prelude.Int.{pos}
use ferum_board.Domain.Error.{unprocessable_entity, forbidden}
use ferum_board.Domain.User.{User}
use ferum_board.Domain.AuthUser.{AuthUser, has_perm, has_perm_in}
use ferum_board.Domain.Forum.{Post, Thread, published, is_pending}
use ferum_board.Domain.Event.{post_created}
use ferum_board.Exec.{Exec, pure, refuse_if, swallow, attempt, ask, publish, ◌>>=◌, ◌>>◌}
use ferum_board.Repo.Posts
use ferum_board.Repo.Threads
use ferum_board.Repo.Users
use ferum_board.PostUseCase.{some_post, some_thread}
use ferum_board.PostUseCase.Change.{release_refs}

abbrev view_reports : String
view_reports = "moderation.view_reports"

-- The checks that `approve_post` and `reject_post` share.
unfoldable pub prepare_review : AuthUser → ℕ → Exec (Post × Thread)
prepare_review actor id = do
  post ← some_post id
  refuse_if (not (is_pending post.status)) (unprocessable_entity "Post is not pending approval")
  thread ← some_thread post.thread_id
  refuse_if
      (not (has_perm actor view_reports) && not (has_perm_in actor view_reports thread.category_id))
      (forbidden "permission_denied")
  pure (post, thread)

-- `.ok().flatten().map(|u| u.username).unwrap_or_default()`.
abbrev username_of : Option (Option User) → Text
username_of (some (some u)) = u.username
username_of _ = []

-- What `approve_post` does once the status is set.
unfoldable pub finish_approve : Post → Thread → Exec (Unit {0})
finish_approve post thread = do
  now ← ask (λ env. env.now)
  swallow (Threads.update_reply_stats post.thread_id (pos 1) (some now))
  swallow (Users.increment_post_count post.author_id (pos 1))
  author ← attempt (Users.find_by_id post.author_id)
  publish (
      post_created post.id post.thread_id thread.slug thread.title post.author_id
        (username_of author) thread.author_id thread.category_id)

unfoldable pub approve_post : AuthUser → ℕ → Exec (Unit {0})
unfolding prepare_review finish_approve
approve_post actor id = do
  (post, thread) ← prepare_review actor id
  Posts.set_status id published
  finish_approve post thread

unfoldable pub reject_post : AuthUser → ℕ → Exec (Unit {0})
unfolding prepare_review release_refs
reject_post actor id = do
  (post, thread) ← prepare_review actor id
  Posts.soft_delete id actor.id
  release_refs post
