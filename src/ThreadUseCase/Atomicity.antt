-- ===== src/ThreadUseCase/Atomicity.antt =====
-- A thread operation that ends in an error leaves the database as it was, whichever of its calls fails.
use ferum_board.Prelude.{ℕ, String, ◌≡◌}
use ferum_board.Domain.Error.{AppError, err}
use ferum_board.Domain.AuthUser.{AuthUser}
use ferum_board.Domain.Forum.{Post, Thread}
use ferum_board.Store.{Env}
use ferum_board.Exec.{World}
use ferum_board.Exec.Rules.{
  Reads, Sure, Atomic, reads_rules, sure_rules, Atomic-bind, Atomic-commit, Atomic-step, Atomic-if,
  Atomic-of_Reads,
}
use ferum_board.Repo.Threads
use ferum_board.PostUseCase.Atomicity.{Reads-some_post, Reads-some_thread}
use ferum_board.ThreadUseCase.{
  find_live_thread, allow_delete, dispatch_before_thread_delete, release_attachment_refs,
  prepare_delete_by_slug, finish_delete_by_slug, delete_by_slug,
}
use ferum_board.ThreadUseCase.Moderation.{
  prepare_mark_solved, finish_mark_solved, mark_answer, mark_solved,
}

pub Reads-find_live_thread : (id : ℕ) → Reads (find_live_thread id)
unfolding find_live_thread
Reads-find_live_thread id = search (reads_rules, Reads-some_thread) depth 20

pub Reads-allow_delete : (actor : AuthUser) (t : Thread) → Reads (allow_delete actor t)
unfolding allow_delete dispatch_before_thread_delete
Reads-allow_delete actor t = search reads_rules depth 20

Reads-prepare_delete_by_slug :
    (actor : AuthUser) (slug : String) → Reads (prepare_delete_by_slug actor slug)
unfolding prepare_delete_by_slug Threads.find_by_slug
Reads-prepare_delete_by_slug actor slug = search (reads_rules, Reads-allow_delete) depth 20

Sure-finish_delete_by_slug : (actor : AuthUser) (t : Thread) → Sure (finish_delete_by_slug actor t)
unfolding finish_delete_by_slug release_attachment_refs
Sure-finish_delete_by_slug actor t = search sure_rules depth 20

Atomic-delete_by_slug : (actor : AuthUser) (slug : String) → Atomic (delete_by_slug actor slug)
unfolding delete_by_slug Threads.update
Atomic-delete_by_slug actor slug = search (
  Atomic-bind, Atomic-commit, Atomic-step, Reads-prepare_delete_by_slug, Sure-finish_delete_by_slug,
)

pub Reads-prepare_mark_solved :
    (actor : AuthUser) (id answer : ℕ) → Reads (prepare_mark_solved actor id answer)
unfolding prepare_mark_solved
Reads-prepare_mark_solved actor id answer =
    search (reads_rules, Reads-find_live_thread, Reads-some_post) depth 30

Sure-finish_mark_solved :
    (actor : AuthUser) (id answer : ℕ) (t : Thread) (p : Post) (r : Thread)
    → Sure (finish_mark_solved actor id answer t p r)
unfolding finish_mark_solved
Sure-finish_mark_solved actor id answer t p r = search sure_rules depth 20

Atomic-mark_answer :
    (actor : AuthUser) (id answer : ℕ) (t : Thread) (p : Post)
    → Atomic (mark_answer actor id answer t p)
unfolding mark_answer Threads.update
Atomic-mark_answer actor id answer t p =
    search (reads_rules, Atomic-bind, Atomic-commit, Atomic-step, Sure-finish_mark_solved) depth 20

Atomic-mark_solved : (actor : AuthUser) (id answer : ℕ) → Atomic (mark_solved actor id answer)
unfolding mark_solved
Atomic-mark_solved actor id answer = search (
  reads_rules, Atomic-bind, Atomic-if, Atomic-of_Reads, Atomic-mark_answer,
  Reads-prepare_mark_solved,
)

module _ (env : Env) (w : World) (actor : AuthUser) (e : AppError) where
  -- Where deleting a thread by its slug ends in an error, the database is the one that it started from:
  -- no reference has been released.
  pub delete_by_slug_atomic :
      (slug : String)
      → (delete_by_slug actor slug env w).0 ≡ err e
      → (delete_by_slug actor slug env w).1.db ≡ w.db
  delete_by_slug_atomic slug = (Atomic-delete_by_slug actor slug).unchanged env w e

  -- Where marking an answer ends in an error, the database is the one that it started from: the thread is
  -- not solved by it, and nobody is rewarded.
  pub mark_solved_atomic :
      (id answer : ℕ)
      → (mark_solved actor id answer env w).0 ≡ err e
      → (mark_solved actor id answer env w).1.db ≡ w.db
  mark_solved_atomic id answer = (Atomic-mark_solved actor id answer).unchanged env w e
