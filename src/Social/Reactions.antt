-- ===== src/Social/Reactions.antt =====
-- A reaction is given once.
use ferum_board.Prelude.{ℕ, Bool, find_row, is_some}
use ferum_board.Domain.AuthUser.{AuthUser}
use ferum_board.Domain.Event.{ReactionKind}
use ferum_board.Store.{Db}
use ferum_board.Exec.{Exec}
use ferum_board.Exec.Keeps.{Keeps}
use ferum_board.Repo.Posts
use ferum_board.Repo.Users
use ferum_board.Repo.Social
use ferum_board.Repo.Social.{is_reaction}

-- The user has reacted to the post with the kind.
abbrev has_reacted : (post_id user_id : ℕ) → ReactionKind → Db → Bool
has_reacted post_id user_id kind db =
    is_some (find_row (is_reaction post_id user_id kind) db.social.reactions)
