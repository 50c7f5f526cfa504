-- ===== src/Domain/Review.antt =====
-- Reactions and reports: backend/crates/ferum-domain/src/models/{reaction,report}.rs.
use ferum_board.Prelude.{
  ℕ, String, Bool, true, false, Option, none, some, Text, str_eq, if◌then◌else◌,
}
use ferum_board.Domain.Event.{ReactionKind, like, helpful, insightful, funny}

pub record Reaction : Type 0 where
  pub post_id : ℕ
  pub user_id : ℕ
  pub kind : ReactionKind

-- `==` of the enum.
abbrev pub same_kind : ReactionKind → ReactionKind → Bool
same_kind like like = true
same_kind helpful helpful = true
same_kind insightful insightful = true
same_kind funny funny = true
same_kind _ _ = false

unfoldable pub as_str : ReactionKind → String
as_str like = "like"
as_str helpful = "helpful"
as_str insightful = "insightful"
as_str funny = "funny"

-- An unknown name is an error, here `none`.
unfoldable pub from_str : String → Option ReactionKind
from_str s =
    if str_eq s "like"
    then some like
    else if str_eq s "helpful"
    then some helpful
    else if str_eq s "insightful"
    then some insightful
    else if str_eq s "funny"
    then some funny
    else none

pub data ReportStatus : Type 0 where
  pending resolved dismissed : ReportStatus

abbrev pub is_pending : ReportStatus → Bool
is_pending pending = true
is_pending _ = false

pub record Report : Type 0 where
  pub id : ℕ
  pub reporter_id : ℕ
  pub post_id : Option ℕ
  pub thread_id : Option ℕ
  pub reason : Text
  pub status : ReportStatus
  pub moderator_notes : Option Text
  pub resolved_by_id : Option ℕ
  pub resolved_at : Option ℕ
