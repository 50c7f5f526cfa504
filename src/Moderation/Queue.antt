-- ===== src/Moderation/Queue.antt =====
-- Reports are resolved once, and by moderators of the category.
use ferum_board.Prelude.{ℕ, ◌≡◌, true, some}
use ferum_board.Domain.Error.{ok}
use ferum_board.Domain.AuthUser.{AuthUser}
use ferum_board.Domain.Review.{Report, is_pending}
use ferum_board.Store.{Db}
use ferum_board.Repo.Posts
use ferum_board.Repo.Threads
use ferum_board.Repo.Reports
use ferum_board.Moderation.Scope.{scope}
use ferum_board.Moderation.{authorize}

-- The report is pending and the user may resolve it in the category of its target, or everywhere where
-- the target has none.
pub record MayResolve (db : Db) (actor : AuthUser) (report_id : ℕ) : Type 0 where
  pub report : Report
  pub found : Reports.row report_id db ≡ some report
  pub is_open : is_pending report.status ≡ true
  pub authorized : authorize actor (scope db report.thread_id report.post_id) ≡ ok tt
