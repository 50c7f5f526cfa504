-- ===== src/PostUseCase.antt =====
-- backend/crates/ferum-application/src/usecases/post_usecase.rs: posts are created, edited, deleted, and
-- approved or rejected from the moderation queue.
pub mod Content
pub mod Change
pub mod Queue
pub mod Atomicity
pub mod References
pub mod Authority
pub mod Requests
pub mod Upload
use ferum_board.Prelude.{
  ℕ, ◌*◌, String, Bool, true, false, not, ◌&&◌, ◌||◌, Option, none, some, List, [], ◌∷◌, Text, ◌==◌,
  ltb, if◌then◌else◌, is_some, is_none, unwrap_or, keep, take, map,
}
use ferum_board.Prelude.Int.{ℤ, pos, negsuc}
use ferum_board.Domain.Error.{
  AppError, Result, ok, err, or_not_found, not_found, forbidden, unprocessable_entity, internal,
}
use ferum_board.Domain.Perm
use ferum_board.Domain.User.{User, TrustLevel, trust_lt}
use ferum_board.Domain.AuthUser.{AuthUser, has_perm, has_perm_in}
use ferum_board.Domain.Forum.{
  Post, PostStatus, pending, published, is_pending, Thread, is_locked, Category, PostPolicy,
  moderated,
}
use ferum_board.Domain.Event.{ForumEvent, post_created, post_deleted, mention_added}
use ferum_board.Store.{Env, HookContext, Value, null, an_id, a_text}
use ferum_board.Exec.{
  Exec, pure, lift, fail, swallow, attempt, ask, before_hook, publish, refuse_if, each, ◌>>=◌, ◌>>◌,
}
use ferum_board.Repo.Posts
use ferum_board.Repo.Posts.{NewPost}
use ferum_board.Repo.Threads
use ferum_board.Repo.Users
use ferum_board.Repo.Files
use ferum_board.Repo.Config
use ferum_board.Permission
use ferum_board.Text.{codes, text_eq, mem_text, trim, is_empty, byte_len}
use ferum_board.PostUseCase.Content.{
  extract_attachment_keys, extract_mentions, matches_blacklist, parse_trust_level,
}

-- backend/crates/ferum-application/src/constants.rs.
abbrev pub max_post_content_bytes : ℕ
max_post_content_bytes = 100 * 1024

abbrev pub default_post_edit_window_hours : ℤ
default_post_edit_window_hours = pos 24

pub record CreatePostCmd : Type 0 where
  pub thread_id : ℕ
  pub parent_id : Option ℕ
  pub content_md : Text

abbrev pub some_post : ℕ → Exec Post
some_post id = do p ← Posts.find_by_id id; lift (or_not_found p)

abbrev pub some_thread : ℕ → Exec Thread
some_thread id = do t ← Threads.find_by_id id; lift (or_not_found t)

abbrev pub some_category : ℕ → Exec Category
some_category id = do c ← Threads.find_category id; lift (or_not_found c)

abbrev difference : List Text → List Text → List Text
difference xs ys = keep (λ x. not (mem_text x ys)) xs

abbrev pub update_refs : (old_keys new_keys : List Text) → Exec (Unit {0})
update_refs old_keys new_keys =
    each (λ key. swallow (Files.increment_ref key)) (difference new_keys old_keys)
    >> each (λ key. swallow (Files.decrement_ref key)) (difference old_keys new_keys)

unfoldable pub sync_attachment_refs : (old_content new_content : Text) → Exec (Unit {0})
sync_attachment_refs old_content new_content = do
  has_storage ← ask (λ env. env.has_storage)
  let old_keys = extract_attachment_keys old_content
  let new_keys = extract_attachment_keys new_content
  if has_storage then update_refs old_keys new_keys else pure tt

abbrev rendered : Option Text → Result Text
rendered none = err (internal "render task panicked")
rendered (some html) = ok html

-- `render_content`, with `render_and_sanitize` of validators/markdown.rs.
unfoldable pub render_content : Text → Exec Text
render_content md = do
  refuse_if (ltb max_post_content_bytes (byte_len md))
      (unprocessable_entity "Post content exceeds the maximum allowed size")
  render ← ask (λ env. env.render)
  lift (rendered (render md))

unfoldable pub content_matches_blacklist : Text → Exec Bool
content_matches_blacklist content_md = do
  raw ← Config.get "keyword_blacklist"
  to_lowercase ← ask (λ env. env.to_lowercase)
  pure (matches_blacklist to_lowercase (unwrap_or raw []) content_md)

abbrev is_moderated : PostPolicy → Bool
is_moderated moderated = true
is_moderated _ = false

abbrev is_true : Option Text → Bool
is_true none = false
is_true (some v) = text_eq v (codes "true")

-- The last rule: a minimum trust, where it is enabled.
abbrev status_by_min_trust : AuthUser → Exec PostStatus
status_by_min_trust actor = do
  min_trust ← Config.get "post_approval_min_trust"
  let level = parse_trust_level (unwrap_or min_trust (codes "new"))
  pure (if trust_lt actor.trust_level level then pending else published)

abbrev status_by_trust : AuthUser → Exec PostStatus
status_by_trust actor = do
  enabled ← Config.get "post_approval_enabled"
  if is_true enabled then status_by_min_trust actor else pure published

abbrev status_of_author : AuthUser → Category → Text → Exec PostStatus
status_of_author actor category content_md = do
  flagged ← content_matches_blacklist content_md
  if flagged
      then pure pending
      else if is_moderated category.post_policy
      then pure pending
      else status_by_trust actor

unfoldable pub resolve_post_status : AuthUser → Category → Text → Exec PostStatus
resolve_post_status actor category content_md =
    if has_perm actor Perm.admin_users || has_perm_in actor Perm.mod_warn category.id
    then pure published
    else status_of_author actor category content_md

abbrev pub hook_context : String → AuthUser → List (String × Value) → HookContext
hook_context name actor payload = record {
  hook_name = name;
  actor_id = some actor.id;
  actor_trust_level = actor.trust_level;
  payload = payload;
}

abbrev optional_id : Option ℕ → Value
optional_id none = null
optional_id (some id) = an_id id

-- The two tests on the text of a post.
abbrev pub check_content : Text → Exec (Unit {0})
check_content content_md = do
  refuse_if (is_empty (trim content_md)) (unprocessable_entity "Post content cannot be empty")
  refuse_if (ltb max_post_content_bytes (byte_len content_md))
      (unprocessable_entity "Post content exceeds 100 KB limit")

-- The parent of a reply stands in the same thread.
abbrev pub check_parent : Option ℕ → ℕ → Exec (Unit {0})
check_parent none thread_id = pure tt
check_parent (some parent_id) thread_id = do
  parent ← some_post parent_id
  refuse_if (not (parent.thread_id == thread_id))
      (unprocessable_entity "parent_id does not belong to this thread")

-- The checks of `create`, and the row that it inserts; the thread goes on into the events.
unfoldable pub prepare_create : AuthUser → CreatePostCmd → Exec (Thread × NewPost)
prepare_create actor cmd = do
  thread ← some_thread cmd.thread_id
  refuse_if (is_some thread.deleted_at) not_found
  refuse_if (is_locked thread.status) (forbidden "thread_locked")
  category ← some_category thread.category_id
  now ← ask (λ env. env.now)
  lift (Permission.can_create_post actor category now)
  before_hook (
      hook_context "before_post_create" actor (
        ("content_md", a_text cmd.content_md)
        ∷ ("thread_id", an_id cmd.thread_id)
        ∷ ("parent_id", optional_id cmd.parent_id)
        ∷ ("category_id", an_id category.id)
        ∷ []))
  check_content cmd.content_md
  check_parent cmd.parent_id cmd.thread_id
  content_html ← render_content cmd.content_md
  status ← resolve_post_status actor category cmd.content_md
  pure (
    thread,
    record {
      thread_id = cmd.thread_id;
      author_id = actor.id;
      parent_id = cmd.parent_id;
      content_md = cmd.content_md;
      content_html = content_html;
      status = status;
    },
  )

-- `if let Ok(Some(mentioned)) = result`, and the event unless the author is mentioned.
unfoldable pub publish_mention : AuthUser → Thread → Post → Option (Option User) → Exec (Unit {0})
publish_mention actor thread post (some (some mentioned)) =
    if mentioned.id == actor.id
    then pure tt
    else publish (
        mention_added post.id post.thread_id thread.slug thread.title mentioned.id actor.id
          actor.username)
publish_mention actor thread post _ = pure tt

-- The users of the names, a failed call being none: `join_all`.
unfoldable pub find_mentioned : List Text → Exec (List (Option (Option User)))
find_mentioned [] = pure []
find_mentioned (name ∷ names) = do
  found ← attempt (Users.find_by_username name)
  rest ← find_mentioned names
  pure (found ∷ rest)

-- What `create` does for a post that is published at once.
unfoldable pub announce : AuthUser → Thread → Post → Exec (Unit {0})
unfolding find_mentioned
announce actor thread post = do
  now ← ask (λ env. env.now)
  swallow (Threads.update_reply_stats post.thread_id (pos 1) (some now))
  swallow (Users.increment_post_count actor.id (pos 1))
  publish (
      post_created post.id post.thread_id thread.slug thread.title actor.id actor.username
        thread.author_id thread.category_id)
  found ← find_mentioned (take 5 (extract_mentions post.content_md))
  each (publish_mention actor thread post) found

-- What `create` does once the row is inserted: the post carries the thread and the text of the command.
unfoldable pub finish_create : AuthUser → Thread → Post → Exec Post
finish_create actor thread post = do
  sync_attachment_refs [] post.content_md
  if is_pending post.status then pure tt else announce actor thread post
  pure post

unfoldable pub create : AuthUser → CreatePostCmd → Exec Post
unfolding prepare_create finish_create
create actor cmd = do
  (thread, row) ← prepare_create actor cmd
  post ← Posts.create row
  finish_create actor thread post
