-- ===== src/ThreadUseCase.antt =====
-- backend/crates/ferum-application/src/usecases/thread_usecase.rs: threads are deleted, pinned, locked,
-- moved and marked as solved.
pub mod Atomicity
pub mod Moderation
pub mod Feed
pub mod Creation
pub mod Labels
pub mod TagLimit
pub mod Thumbnails
pub mod ThumbnailRefs
pub mod Closed
pub mod Solved
use ferum_board.Prelude.{
  ℕ, String, Bool, true, false, not, ◌&&◌, Option, none, some, List, [], ◌∷◌, Text, ◌==◌,
  if◌then◌else◌, is_some,
}
use ferum_board.Prelude.Int.{pos}
use ferum_board.Domain.Error.{
  AppError, Result, ok, err, or_not_found, not_found, forbidden, unprocessable_entity,
}
use ferum_board.Domain.Perm
use ferum_board.Domain.AuthUser.{AuthUser, has_perm_in}
use ferum_board.Domain.Forum.{
  Post, Thread, ThreadStatus, open_thread, locked, deleted, is_deleted_status,
}
use ferum_board.Domain.Event.{thread_deleted, thread_locked, thread_moved, best_answer_marked}
use ferum_board.Store.{Env, Value, an_id}
use ferum_board.Exec.{
  Exec, pure, lift, swallow, attempt, ask, before_hook, publish, refuse_if, each, ◌>>=◌, ◌>>◌,
}
use ferum_board.Repo.Posts
use ferum_board.Repo.Threads
use ferum_board.Repo.Threads.{UpdateThread, no_change}
use ferum_board.Repo.Users
use ferum_board.Repo.Files
use ferum_board.Permission
use ferum_board.PostUseCase.{some_post, some_thread, some_category, hook_context}
use ferum_board.PostUseCase.Content.{extract_attachment_keys}

unfoldable pub find_live_thread : ℕ → Exec Thread
find_live_thread id = do
  thread ← some_thread id
  refuse_if (is_some thread.deleted_at) not_found
  pure thread

unfoldable pub require_author_or_mod : AuthUser → Thread → Result (Unit {0})
require_author_or_mod actor thread =
    if not (thread.author_id == actor.id)
      && not (has_perm_in actor Perm.thread_delete_any thread.category_id)
    then err (forbidden "not_author")
    else ok tt

unfoldable pub dispatch_before_thread_delete : AuthUser → Thread → Exec (Unit {0})
dispatch_before_thread_delete actor thread = before_hook (
    hook_context "before_thread_delete" actor (
      ("thread_id", an_id thread.id)
      ∷ ("category_id", an_id thread.category_id)
      ∷ ("author_id", an_id thread.author_id)
      ∷ []))

-- The change that both deletions make.
abbrev pub deletion : AuthUser → ℕ → UpdateThread
deletion actor now = record no_change {
  status = some deleted;
  deleted_by_id = some actor.id;
  deleted_at = some now;
}

-- The checks of both deletions, once the thread is found; the answer is the time.
unfoldable pub allow_delete : AuthUser → Thread → Exec ℕ
unfolding dispatch_before_thread_delete
allow_delete actor thread = do
  lift (require_author_or_mod actor thread)
  now ← ask (λ env. env.now)
  lift (Permission.require_not_banned actor now)
  dispatch_before_thread_delete actor thread
  pure now

unfoldable pub soft_delete : AuthUser → ℕ → Exec (Unit {0})
unfolding find_live_thread allow_delete
soft_delete actor id = do
  thread ← find_live_thread id
  now ← allow_delete actor thread
  Threads.update id (deletion actor now)
  publish (thread_deleted id actor.id)

abbrev pub contents_or_none : Option (List Text) → List Text
contents_or_none none = []
contents_or_none (some contents) = contents

-- The references of one post.
abbrev pub release_content : Text → Exec (Unit {0})
release_content content =
    each (λ key. swallow (Files.decrement_ref key)) (extract_attachment_keys content)

unfoldable pub release_attachment_refs : ℕ → Exec (Unit {0})
release_attachment_refs thread_id = do
  contents ← attempt (Posts.content_md_by_thread thread_id)
  each release_content (contents_or_none contents)

abbrev slug_thread : String → Exec Thread
slug_thread slug = do t ← Threads.find_by_slug slug; lift (or_not_found t)

-- The thread and the time of a deletion that is allowed.
unfoldable pub prepare_delete_by_slug : AuthUser → String → Exec (Thread × ℕ)
unfolding allow_delete
prepare_delete_by_slug actor slug = do
  thread ← slug_thread slug
  refuse_if (is_deleted_status thread.status) not_found
  now ← allow_delete actor thread
  pure (thread, now)

unfoldable pub finish_delete_by_slug : AuthUser → Thread → Exec (Unit {0})
unfolding release_attachment_refs
finish_delete_by_slug actor thread = do
  release_attachment_refs thread.id
  publish (thread_deleted thread.id actor.id)

unfoldable pub delete_by_slug : AuthUser → String → Exec (Unit {0})
unfolding prepare_delete_by_slug finish_delete_by_slug
delete_by_slug actor slug = do
  (thread, now) ← prepare_delete_by_slug actor slug
  Threads.update thread.id (deletion actor now)
  finish_delete_by_slug actor thread
