-- ===== src/PostUseCase/Atomicity/Operations.antt =====
-- A post operation that ends in an error leaves the database as it was, whichever of its calls fails.
use ferum_board.Prelude.{ℕ, ◌≡◌, Text}
use ferum_board.Domain.Error.{AppError, err}
use ferum_board.Domain.AuthUser.{AuthUser}
use ferum_board.Domain.Forum.{Post, Thread}
use ferum_board.Store.{Env}
use ferum_board.Exec.{World}
use ferum_board.Exec.Rules.{
  Reads, Sure, Atomic, reads_rules, sure_rules, Atomic-bind, Atomic-commit, Atomic-step,
}
use ferum_board.Repo.Posts
use ferum_board.Repo.Config
use ferum_board.PostUseCase.{CreatePostCmd, create}
use ferum_board.PostUseCase.Change.{
  prepare_edit, finish_edit, edit, prepare_delete, release_refs, uncount, finish_delete, delete,
}
use ferum_board.PostUseCase.Queue.{prepare_review, finish_approve, approve_post, reject_post}
use ferum_board.PostUseCase.Atomicity.{
  Reads-some_post, Reads-some_thread, Reads-check_content, Reads-render_content,
  Sure-sync_attachment_refs, Atomic-create,
}

pub Reads-prepare_edit : (actor : AuthUser) (id : ℕ) (md : Text) → Reads (prepare_edit actor id md)
unfolding prepare_edit Config.get_config_i64 Config.get
Reads-prepare_edit actor id md =
    search
      (reads_rules, Reads-some_post, Reads-some_thread, Reads-check_content, Reads-render_content)
      depth 40

Sure-finish_edit : (old new : Text) (p : Post) → Sure (finish_edit old new p)
unfolding finish_edit
Sure-finish_edit old new p = search (sure_rules, Sure-sync_attachment_refs)

pub Atomic-edit : (actor : AuthUser) (id : ℕ) (md : Text) → Atomic (edit actor id md)
unfolding edit Posts.update_content
Atomic-edit actor id md =
    search (Atomic-bind, Atomic-commit, Atomic-step, Reads-prepare_edit, Sure-finish_edit)

pub Reads-prepare_delete : (actor : AuthUser) (id : ℕ) → Reads (prepare_delete actor id)
unfolding prepare_delete
Reads-prepare_delete actor id = search (reads_rules, Reads-some_post, Reads-some_thread) depth 20

Sure-release_refs : (p : Post) → Sure (release_refs p)
unfolding release_refs
Sure-release_refs p = search (sure_rules, Sure-sync_attachment_refs)

Sure-finish_delete : (actor : AuthUser) (id : ℕ) (p : Post) → Sure (finish_delete actor id p)
unfolding finish_delete uncount
Sure-finish_delete actor id p = search (sure_rules, Sure-release_refs) depth 20

pub Atomic-delete : (actor : AuthUser) (id : ℕ) → Atomic (delete actor id)
unfolding delete Posts.soft_delete
Atomic-delete actor id =
    search (Atomic-bind, Atomic-commit, Atomic-step, Reads-prepare_delete, Sure-finish_delete)

pub Reads-prepare_review : (actor : AuthUser) (id : ℕ) → Reads (prepare_review actor id)
unfolding prepare_review
Reads-prepare_review actor id = search (reads_rules, Reads-some_post, Reads-some_thread) depth 20

Sure-finish_approve : (p : Post) (t : Thread) → Sure (finish_approve p t)
unfolding finish_approve
Sure-finish_approve p t = search sure_rules depth 20

pub Atomic-approve_post : (actor : AuthUser) (id : ℕ) → Atomic (approve_post actor id)
unfolding approve_post Posts.set_status
Atomic-approve_post actor id =
    search (Atomic-bind, Atomic-commit, Atomic-step, Reads-prepare_review, Sure-finish_approve)

pub Atomic-reject_post : (actor : AuthUser) (id : ℕ) → Atomic (reject_post actor id)
unfolding reject_post Posts.soft_delete
Atomic-reject_post actor id =
    search (Atomic-bind, Atomic-commit, Atomic-step, Reads-prepare_review, Sure-release_refs)

module _ (env : Env) (w : World) (actor : AuthUser) (e : AppError) where
  -- Where creating a post ends in an error, be it a refusal or a failed call, the database is the one
  -- that it started from: no post, no reference, no count and no event stays behind.
  pub create_atomic :
      (cmd : CreatePostCmd)
      → (create actor cmd env w).0 ≡ err e
      → (create actor cmd env w).1.db ≡ w.db
  create_atomic cmd = (Atomic-create actor cmd).unchanged env w e

  -- Where editing a post ends in an error, the database is the one that it started from, whichever of the
  -- calls failed.
  pub edit_atomic :
      (id : ℕ) (md : Text)
      → (edit actor id md env w).0 ≡ err e
      → (edit actor id md env w).1.db ≡ w.db
  edit_atomic id md = (Atomic-edit actor id md).unchanged env w e

  -- Where deleting a post ends in an error, the database is the one that it started from, whichever of the
  -- calls failed.
  pub delete_atomic :
      (id : ℕ) → (delete actor id env w).0 ≡ err e → (delete actor id env w).1.db ≡ w.db
  delete_atomic id = (Atomic-delete actor id).unchanged env w e

  -- Where approving a post ends in an error, the database is the one that it started from, whichever of the
  -- calls failed.
  pub approve_atomic :
      (id : ℕ) → (approve_post actor id env w).0 ≡ err e → (approve_post actor id env w).1.db ≡ w.db
  approve_atomic id = (Atomic-approve_post actor id).unchanged env w e

  -- Where rejecting a post ends in an error, the database is the one that it started from, whichever of the
  -- calls failed.
  pub reject_atomic :
      (id : ℕ) → (reject_post actor id env w).0 ≡ err e → (reject_post actor id env w).1.db ≡ w.db
  reject_atomic id = (Atomic-reject_post actor id).unchanged env w e
