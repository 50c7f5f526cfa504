-- ===== src/ThreadUseCase/Moderation.antt =====
-- `pin`, `lock`, `move_to` and `mark_solved` of
-- backend/crates/ferum-application/src/usecases/thread_usecase.rs.
use ferum_board.Prelude.{
  ℕ, Bool, true, false, not, ◌&&◌, Option, none, some, [], ◌∷◌, ◌==◌, if◌then◌else◌,
}
use ferum_board.Prelude.Int.{pos}
use ferum_board.Domain.Error.{Result, ok, unprocessable_entity}
use ferum_board.Domain.AuthUser.{AuthUser}
use ferum_board.Domain.Forum.{Post, Thread, open_thread, locked}
use ferum_board.Domain.Event.{thread_locked, thread_moved, best_answer_marked}
use ferum_board.Store.{an_id}
use ferum_board.Exec.{Exec, pure, lift, swallow, ask, before_hook, publish, refuse_if, ◌>>=◌, ◌>>◌}
use ferum_board.Repo.Threads
use ferum_board.Repo.Threads.{UpdateThread, no_change}
use ferum_board.Repo.Users
use ferum_board.Permission
use ferum_board.PostUseCase.{some_post, some_category, hook_context}
use ferum_board.ThreadUseCase.{find_live_thread}

unfoldable pub pin : AuthUser → ℕ → Bool → Exec Thread
unfolding find_live_thread
pin actor id is_pinned = do
  thread ← find_live_thread id
  now ← ask (λ env. env.now)
  lift (Permission.can_pin actor thread.category_id now)
  Threads.update id (record no_change { is_pinned = some is_pinned })

-- The event, where the thread is locked.
abbrev pub announce_lock : AuthUser → ℕ → Bool → Exec (Unit {0})
announce_lock actor id on = if on then publish (thread_locked id actor.id) else pure tt

unfoldable pub lock : AuthUser → ℕ → Bool → Exec Thread
unfolding find_live_thread
lock actor id on = do
  thread ← find_live_thread id
  now ← ask (λ env. env.now)
  lift (Permission.can_lock actor thread.category_id now)
  result ←
      Threads.update id (record no_change { status = some (if on then locked else open_thread) })
  announce_lock actor id on
  pure result

unfoldable pub move_to : AuthUser → ℕ → ℕ → Exec Thread
unfolding find_live_thread
move_to actor id target_category_id = do
  thread ← find_live_thread id
  now ← ask (λ env. env.now)
  lift (Permission.can_move actor thread.category_id now)
  some_category target_category_id
  result ← Threads.update id (record no_change { category_id = some target_category_id })
  publish (thread_moved id thread.category_id target_category_id actor.id)
  pure result

-- Whoever is not the author needs the right to lock.
abbrev may_solve : AuthUser → Thread → ℕ → Result (Unit {0})
may_solve actor thread now =
    if thread.author_id == actor.id then ok tt else Permission.can_lock actor thread.category_id now

abbrev pub is_some_id : Option ℕ → ℕ → Bool
is_some_id none id = false
is_some_id (some i) id = i == id

unfoldable pub prepare_mark_solved : AuthUser → ℕ → ℕ → Exec (Thread × Post)
unfolding find_live_thread
prepare_mark_solved actor id best_answer_id = do
  thread ← find_live_thread id
  now ← ask (λ env. env.now)
  lift (may_solve actor thread now)
  lift (Permission.require_not_banned actor now)
  best_post ← some_post best_answer_id
  refuse_if (not (best_post.thread_id == id))
      (unprocessable_entity "best_answer must belong to this thread")
  pure (thread, best_post)

-- The event, and the reward of the author; the source spawns the reward, whose failure is dropped.
unfoldable pub finish_mark_solved : AuthUser → ℕ → ℕ → Thread → Post → Thread → Exec Thread
finish_mark_solved actor id best_answer_id thread best_post result = do
  publish (
      best_answer_marked best_answer_id id thread.slug thread.title best_post.author_id actor.id
        actor.username)
  swallow (Users.increment_trust_score best_post.author_id (pos 5))
  pure result

-- The hook, the write and what follows, for an answer that is not marked already.
unfoldable pub mark_answer : AuthUser → ℕ → ℕ → Thread → Post → Exec Thread
unfolding finish_mark_solved
mark_answer actor id best_answer_id thread best_post = do
  before_hook (
      hook_context "before_best_answer_mark" actor (
        ("thread_id", an_id id)
        ∷ ("category_id", an_id thread.category_id)
        ∷ ("post_id", an_id best_answer_id)
        ∷ ("post_author_id", an_id best_post.author_id)
        ∷ []))
  result ←
      Threads.update id
        (record no_change { is_solved = some true; best_answer_id = some (some best_answer_id) })
  finish_mark_solved actor id best_answer_id thread best_post result

unfoldable pub mark_solved : AuthUser → ℕ → ℕ → Exec Thread
unfolding prepare_mark_solved mark_answer
mark_solved actor id best_answer_id = do
  (thread, best_post) ← prepare_mark_solved actor id best_answer_id
  if thread.is_solved && is_some_id thread.best_answer_id best_answer_id
      then pure thread
      else mark_answer actor id best_answer_id thread best_post
