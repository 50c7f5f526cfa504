-- ===== src/Domain/Event.antt =====
-- backend/crates/ferum-domain/src/events.rs: what a use case publishes.
use ferum_board.Prelude.{ℕ, String, Option, Text}

pub data ReactionKind : Type 0 where
  like helpful insightful funny : ReactionKind

pub data ForumEvent : Type 0 where
  post_created :
      (post_id thread_id : ℕ) (thread_slug : String) (thread_title : Text) (author_id : ℕ)
      (author_username : Text) (thread_author_id category_id : ℕ)
      → ForumEvent
  post_deleted : (post_id deleted_by_id : ℕ) → ForumEvent
  thread_locked : (thread_id by_user_id : ℕ) → ForumEvent
  thread_moved : (thread_id from_category to_category by_user_id : ℕ) → ForumEvent
  user_banned : (user_id by_user_id : ℕ) (reason : Text) (until : Option ℕ) → ForumEvent
  user_warned : (user_id by_user_id : ℕ) (reason : Text) → ForumEvent
  reaction_added :
      (post_id thread_id : ℕ) (thread_slug : String) (thread_title : Text)
      (post_author_id reactor_id : ℕ) (reactor_username : Text) (kind : ReactionKind)
      → ForumEvent
  reaction_removed : (post_id post_author_id reactor_id : ℕ) (kind : ReactionKind) → ForumEvent
  best_answer_marked :
      (post_id thread_id : ℕ) (thread_slug : String) (thread_title : Text)
      (post_author_id by_user_id : ℕ) (by_username : Text)
      → ForumEvent
  mention_added :
      (post_id thread_id : ℕ) (thread_slug : String) (thread_title : Text)
      (mentioned_user_id author_id : ℕ) (author_username : Text)
      → ForumEvent
  thread_created : (thread_id : ℕ) (thread_slug : String) (author_id category_id : ℕ) → ForumEvent
  thread_deleted : (thread_id deleted_by_id : ℕ) → ForumEvent
  user_followed : (follower_id : ℕ) (follower_username : Text) (followed_id : ℕ) → ForumEvent

unfoldable pub event_type_str : ForumEvent → String
event_type_str (post_created _ _ _ _ _ _ _ _) = "post.created"
event_type_str (post_deleted _ _) = "post.deleted"
event_type_str (thread_locked _ _) = "thread.locked"
event_type_str (thread_moved _ _ _ _) = "thread.moved"
event_type_str (user_banned _ _ _ _) = "user.banned"
event_type_str (user_warned _ _ _) = "user.warned"
event_type_str (reaction_added _ _ _ _ _ _ _ _) = "reaction.added"
event_type_str (reaction_removed _ _ _ _) = "reaction.removed"
event_type_str (best_answer_marked _ _ _ _ _ _ _) = "best_answer.marked"
event_type_str (mention_added _ _ _ _ _ _ _) = "mention.added"
event_type_str (thread_created _ _ _ _) = "thread.created"
event_type_str (thread_deleted _ _) = "thread.deleted"
event_type_str (user_followed _ _ _) = "user.followed"
