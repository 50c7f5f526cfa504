-- ===== src/Domain/Forum.antt =====
-- The rows of the forum: backend/crates/ferum-domain/src/models/{post,thread,category}.rs. The fields
-- that only listings fill in (names, tags, reactions) are left out.
use ferum_board.Prelude.{ℕ, ◌+◌, ◌*◌, String, Bool, true, false, Option, Text, leb, if◌then◌else◌}
use ferum_board.Prelude.Int.{ℤ, pos, negsuc}

pub data PostStatus : Type 0 where
  pending published : PostStatus

abbrev pub is_pending : PostStatus → Bool
is_pending pending = true
is_pending published = false

pub record Post : Type 0 where
  pub id : ℕ
  pub thread_id : ℕ
  pub author_id : ℕ
  pub parent_id : Option ℕ
  pub content_md : Text
  pub content_html : Text
  pub status : PostStatus
  pub is_deleted : Bool
  pub deleted_at : Option ℕ
  pub deleted_by_id : Option ℕ
  pub edited_at : Option ℕ
  pub edited_by_id : Option ℕ
  pub edit_count : ℕ
  pub created_at : ℕ

-- An hour in milliseconds.
abbrev pub hour : ℕ
hour = 3600000

-- `now - created_at <= Duration::hours(h)`: the difference of two times and the window are signed.
unfoldable pub within_hours : ℕ → ℕ → ℤ → Bool
within_hours now created_at (pos h) = leb now (created_at + h * hour)
within_hours now created_at (negsuc h) = leb (now + (h + 1) * hour) created_at

unfoldable pub is_editable_by_author : Post → ℕ → ℤ → Bool
is_editable_by_author p now edit_window_hours =
    if p.is_deleted then false else within_hours now p.created_at edit_window_hours

pub data ThreadStatus : Type 0 where
  open_thread locked deleted : ThreadStatus

abbrev pub is_locked : ThreadStatus → Bool
is_locked locked = true
is_locked _ = false

abbrev pub is_deleted_status : ThreadStatus → Bool
is_deleted_status deleted = true
is_deleted_status _ = false

pub record Thread : Type 0 where
  pub id : ℕ
  pub category_id : ℕ
  pub author_id : ℕ
  pub title : Text
  pub slug : String
  pub status : ThreadStatus
  pub is_pinned : Bool
  pub is_solved : Bool
  pub best_answer_id : Option ℕ
  pub view_count : ℕ
  pub reply_count : ℤ
  pub last_post_at : Option ℕ
  pub created_at : ℕ
  pub deleted_at : Option ℕ
  pub deleted_by_id : Option ℕ

pub data ViewPolicy : Type 0 where
  public_view members_only staff_only_view : ViewPolicy

pub data PostPolicy : Type 0 where
  members trusted staff_only closed moderated : PostPolicy

pub record Category : Type 0 where
  pub id : ℕ
  pub parent_id : Option ℕ
  pub slug : String
  pub name : String
  pub position : ℤ
  pub view_policy : ViewPolicy
  pub post_policy : PostPolicy
