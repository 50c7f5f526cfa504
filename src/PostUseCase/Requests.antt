-- ===== src/PostUseCase/Requests.antt =====
-- The requests that change posts, as data, and the use case as the function that serves them.
pub mod Identifiers
pub mod Reachable
use ferum_board.Prelude.{ℕ, ◌≡◌, Text}
use ferum_board.Domain.Error.{AppError, err}
use ferum_board.Domain.AuthUser.{AuthUser}
use ferum_board.Store.{Env}
use ferum_board.Exec.{World, Exec, pure, ◌>>=◌, ◌>>◌}
use ferum_board.Exec.Rules.{Atomic, Atomic-commit, Sure-pure}
use ferum_board.PostUseCase.{CreatePostCmd, create}
use ferum_board.PostUseCase.Change.{edit, delete}
use ferum_board.PostUseCase.Queue.{approve_post, reject_post}
use ferum_board.PostUseCase.Atomicity.{Atomic-create}
use ferum_board.PostUseCase.Atomicity.Operations.{
  Atomic-edit, Atomic-delete, Atomic-approve_post, Atomic-reject_post,
}

pub data Request : Type 0 where
  create_request : CreatePostCmd → Request
  edit_request : (id : ℕ) (content_md : Text) → Request
  delete_request : (id : ℕ) → Request
  approve_request : (id : ℕ) → Request
  reject_request : (id : ℕ) → Request

unfoldable pub serve : AuthUser → Request → Exec (Unit {0})
serve actor (create_request cmd) = create actor cmd >> pure tt
serve actor (edit_request id md) = edit actor id md >> pure tt
serve actor (delete_request id) = delete actor id
serve actor (approve_request id) = approve_post actor id
serve actor (reject_request id) = reject_post actor id

Atomic-serve : (actor : AuthUser) (r : Request) → Atomic (serve actor r)
unfolding serve
Atomic-serve actor (create_request cmd) =
    Atomic-commit (create actor cmd) _ (Atomic-create actor cmd) (λ p. Sure-pure tt)
Atomic-serve actor (edit_request id md) =
    Atomic-commit (edit actor id md) _ (Atomic-edit actor id md) (λ p. Sure-pure tt)
Atomic-serve actor (delete_request id) = Atomic-delete actor id
Atomic-serve actor (approve_request id) = Atomic-approve_post actor id
Atomic-serve actor (reject_request id) = Atomic-reject_post actor id

-- Where creating, editing, deleting, approving or rejecting a post ends in an error, be it a refusal or
-- a failed call, the database is the one that the request started from: no post, no reference, no count
-- and no event stays behind.
pub serve_atomic :
    (env : Env) (w : World) (actor : AuthUser) (r : Request) (e : AppError)
    → (serve actor r env w).0 ≡ err e
    → (serve actor r env w).1.db ≡ w.db
serve_atomic env w actor r = (Atomic-serve actor r).unchanged env w
