-- ===== src/Tests/Threads.antt =====
-- The operations on threads, run on a small forum.
use ferum_board.Prelude.{◌≡◌, refl, true, none, some, List, [], ◌∷◌}
use ferum_board.Domain.Error.{err, forbidden}
use ferum_board.Domain.AuthUser.{AuthUser}
use ferum_board.Domain.Forum.{Thread, locked}
use ferum_board.Exec.{db_error}
use ferum_board.PostUseCase.{CreatePostCmd, create}
use ferum_board.ThreadUseCase.{soft_delete, delete_by_slug}
use ferum_board.ThreadUseCase.Moderation.{lock, mark_solved}
use ferum_board.ThreadUseCase.Solved.{mark_solved-mark_solved}
use ferum_board.ThreadUseCase.Closed.{lock-create}
use ferum_board.Text.{codes}
use ferum_board.Tests.Data.{alice, morgan, topic, start, quiet, failing}

abbrev reply : CreatePostCmd
reply = record { thread_id = 10; parent_id = none; content_md = codes "late" }

-- Morgan with the right to lock threads.
abbrev locker : AuthUser
locker = record morgan { permissions = "thread.lock" ∷ [] }

abbrev locked_topic : Thread
locked_topic = record topic { status = locked }

lock-create_example :
    (create alice reply quiet (lock locker 10 true quiet start).1).0
    ≡ err (forbidden "thread_locked")
unfolding lock ferum_board.Exec.◌>>=◌ ferum_board.Exec.read ferum_board.Exec.step
    ferum_board.Exec.lift ferum_board.Exec.pure ferum_board.Exec.ask ferum_board.Exec.refuse_if
    ferum_board.Exec.publish ferum_board.Exec.before_hook ferum_board.Exec.dispatch_before_hook
    ferum_board.Prelude.find_row ferum_board.Prelude.update_rows ferum_board.Repo.Threads.find_by_id
    ferum_board.Repo.Threads.find_by_slug ferum_board.Repo.Threads.update
    ferum_board.Repo.Threads.patched ferum_board.Repo.Posts.find_by_id
    ferum_board.Permission.can_lock ferum_board.Permission.require_not_banned
    ferum_board.Domain.AuthUser.is_currently_banned ferum_board.Domain.AuthUser.has_perm
    ferum_board.Domain.AuthUser.has_perm_in ferum_board.Domain.AuthUser.contains
    ferum_board.Domain.AuthUser.get ferum_board.ThreadUseCase.find_live_thread
    ferum_board.ThreadUseCase.require_author_or_mod ferum_board.ThreadUseCase.allow_delete
    ferum_board.ThreadUseCase.dispatch_before_thread_delete
    ferum_board.ThreadUseCase.prepare_delete_by_slug
    ferum_board.ThreadUseCase.Moderation.prepare_mark_solved
    ferum_board.ThreadUseCase.Moderation.mark_answer
lock-create_example =
    lock-create quiet quiet start (lock locker 10 true quiet start).1 locked_topic locker alice 10
      reply (λ n. refl) refl refl

abbrev solved_topic : Thread
solved_topic = record topic { is_solved = true; best_answer_id = some 20 }

mark_solved-mark_solved_example :
    (mark_solved locker 10 20 (failing 2) (mark_solved alice 10 20 quiet start).1).1.db
    ≡ (mark_solved alice 10 20 quiet start).1.db
unfolding mark_solved ferum_board.Exec.◌>>=◌ ferum_board.Exec.read ferum_board.Exec.step
    ferum_board.Exec.lift ferum_board.Exec.pure ferum_board.Exec.ask ferum_board.Exec.refuse_if
    ferum_board.Exec.publish ferum_board.Exec.before_hook ferum_board.Exec.dispatch_before_hook
    ferum_board.Prelude.find_row ferum_board.Prelude.update_rows ferum_board.Repo.Threads.find_by_id
    ferum_board.Repo.Threads.find_by_slug ferum_board.Repo.Threads.update
    ferum_board.Repo.Threads.patched ferum_board.Repo.Posts.find_by_id
    ferum_board.Permission.can_lock ferum_board.Permission.require_not_banned
    ferum_board.Domain.AuthUser.is_currently_banned ferum_board.Domain.AuthUser.has_perm
    ferum_board.Domain.AuthUser.has_perm_in ferum_board.Domain.AuthUser.contains
    ferum_board.Domain.AuthUser.get ferum_board.ThreadUseCase.find_live_thread
    ferum_board.ThreadUseCase.require_author_or_mod ferum_board.ThreadUseCase.allow_delete
    ferum_board.ThreadUseCase.dispatch_before_thread_delete
    ferum_board.ThreadUseCase.prepare_delete_by_slug
    ferum_board.ThreadUseCase.Moderation.prepare_mark_solved
    ferum_board.ThreadUseCase.Moderation.mark_answer
    ferum_board.ThreadUseCase.Moderation.finish_mark_solved ferum_board.Exec.swallow
    ferum_board.Exec.write
mark_solved-mark_solved_example =
    mark_solved-mark_solved quiet (failing 2) start (mark_solved alice 10 20 quiet start).1
      (mark_solved alice 10 20 quiet start).1 alice locker 10 20 solved_topic refl refl
