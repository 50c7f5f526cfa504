-- ===== src/Tests/Reached.antt =====
-- A database that a request leads to.
use ferum_board.Prelude.{refl, arith}
use ferum_board.PostUseCase.Requests.{delete_request, serve}
use ferum_board.PostUseCase.Requests.Reachable.{
  Fresh, IsSound, served, start, next, reachable-IsSound,
}
use ferum_board.Tests.Data.{alice, forum, quiet, start as small_world}
use ferum_board.Tests.Posts.{forum-RefsOk, forum_ids}

Fresh-quiet : Fresh quiet forum
Fresh-quiet n = (λ e. omega arith, (λ e. omega arith, tt))

reachable-IsSound_example : IsSound (serve alice (delete_request 20) quiet small_world).1.db
reachable-IsSound_example =
    reachable-IsSound forum (serve alice (delete_request 20) quiet small_world).1.db
      (next start (served quiet small_world alice (delete_request 20) (λ n. refl) refl Fresh-quiet))
      (record { ids = forum_ids; refs = forum-RefsOk })
