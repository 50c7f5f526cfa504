-- ===== src/Social.antt =====
-- reaction_usecase.rs, follow_usecase.rs and bookmark_usecase.rs of
-- backend/crates/ferum-application/src/usecases, without the listings.
pub mod Reactions
use ferum_board.Prelude.{
  ℕ, String, Bool, true, false, not, Option, none, some, List, [], ◌∷◌, ◌==◌, is_some,
  if◌then◌else◌,
}
use ferum_board.Prelude.Int.{ℤ, pos, negsuc}
use ferum_board.Domain.Error.{or_not_found, not_found, forbidden, unprocessable_entity}
use ferum_board.Domain.User.{User, basic, trust_lt}
use ferum_board.Domain.AuthUser.{AuthUser}
use ferum_board.Domain.Forum.{Post, Thread, is_deleted_status}
use ferum_board.Domain.Event.{
  ReactionKind, like, helpful, insightful, funny, reaction_added, reaction_removed, user_followed,
}
use ferum_board.Domain.Review.{as_str}
use ferum_board.Store.{HookContext, an_id, a_text}
use ferum_board.Exec.{
  Exec, pure, lift, fail, ask, swallow, refuse_if, before_hook, publish, ◌>>=◌, ◌>>◌,
}
use ferum_board.Permission.{require_not_banned}
use ferum_board.Repo.Posts
use ferum_board.Repo.Threads
use ferum_board.Repo.Users
use ferum_board.Repo.Social
use ferum_board.Text.{codes}

-- `require_not_banned(actor)?` at the time of the request.
unfoldable pub check_ban : AuthUser → Exec (Unit {0})
unfolding ◌>>=◌ require_not_banned
check_ban actor = do now ← ask (λ env. env.now); lift (require_not_banned actor now)

unfoldable pub find_active_post : ℕ → Exec Post
unfolding ◌>>=◌ Posts.find_by_id
find_active_post post_id = do
  found ← Posts.find_by_id post_id
  post ← lift (or_not_found found)
  refuse_if post.is_deleted not_found
  pure post

abbrev pub is_meaningful : ReactionKind → Bool
is_meaningful helpful = true
is_meaningful insightful = true
is_meaningful _ = false

-- The trust that a meaningful reaction gives or takes back, in a task of its own.
abbrev pub reward : ReactionKind → ℕ → ℤ → Exec (Unit {0})
reward kind author_id amount =
    if is_meaningful kind then swallow (Users.increment_trust_score author_id amount) else pure tt

abbrev reaction_ctx : AuthUser → ℕ → Post → Thread → ReactionKind → HookContext
reaction_ctx actor post_id post thread kind = record {
  hook_name = "before_reaction_add";
  actor_id = some actor.id;
  actor_trust_level = actor.trust_level;
  payload =
      ("post_id", an_id post_id)
      ∷ ("thread_id", an_id thread.id)
      ∷ ("post_author_id", an_id post.author_id)
      ∷ ("kind", a_text (codes (as_str kind)))
      ∷ [];
}

-- The checks of `add`, and whether the reaction is there.
unfoldable pub prepare_add : AuthUser → ℕ → ReactionKind → Exec (Post × Bool)
unfolding ◌>>=◌ check_ban find_active_post Social.find_reaction
prepare_add actor post_id kind = do
  check_ban actor
  refuse_if (trust_lt actor.trust_level basic) (forbidden "trust_level_insufficient")
  post ← find_active_post post_id
  refuse_if (post.author_id == actor.id) (forbidden "cannot_react_to_own_post")
  found ← Social.find_reaction post_id actor.id kind
  pure (post, is_some found)

-- The thread of the post, and the answer of the plugins.
unfoldable pub allow_add : AuthUser → ℕ → Post → ReactionKind → Exec Thread
unfolding ◌>>=◌ Threads.find_by_id
allow_add actor post_id post kind = do
  found ← Threads.find_by_id post.thread_id
  thread ← lift (or_not_found found)
  before_hook (reaction_ctx actor post_id post thread kind)
  pure thread

unfoldable pub finish_add :
    AuthUser → ℕ → Post → Thread → ReactionKind → Exec (List (ReactionKind × ℕ))
unfolding ◌>>=◌ Users.increment_trust_score Social.counts_by_post
finish_add actor post_id post thread kind = do
  publish (
      reaction_added post_id thread.id thread.slug thread.title post.author_id actor.id
        actor.username kind)
  reward kind post.author_id (pos 2)
  Social.counts_by_post post_id

unfoldable pub add_new : AuthUser → ℕ → Post → ReactionKind → Exec (List (ReactionKind × ℕ))
unfolding ◌>>=◌ allow_add Social.add_reaction finish_add
add_new actor post_id post kind = do
  thread ← allow_add actor post_id post kind
  Social.add_reaction post_id actor.id kind
  finish_add actor post_id post thread kind

abbrev pub add_if_new : AuthUser → ℕ → ReactionKind → Post × Bool → Exec (List (ReactionKind × ℕ))
add_if_new actor post_id kind p =
    if p.1 then Social.counts_by_post post_id else add_new actor post_id p.0 kind

unfoldable pub add : AuthUser → ℕ → ReactionKind → Exec (List (ReactionKind × ℕ))
unfolding ◌>>=◌ prepare_add add_new Social.counts_by_post
add actor post_id kind = prepare_add actor post_id kind >>= add_if_new actor post_id kind

abbrev pub undo : AuthUser → ℕ → Post → ReactionKind → Exec (Unit {0})
undo actor post_id post kind =
    publish (reaction_removed post_id post.author_id actor.id kind)
    >> reward kind post.author_id (negsuc 1)

unfoldable pub remove : AuthUser → ℕ → ReactionKind → Exec (List (ReactionKind × ℕ))
unfolding ◌>>=◌ check_ban find_active_post Social.find_reaction Social.remove_reaction
    Users.increment_trust_score Social.counts_by_post
remove actor post_id kind = do
  check_ban actor
  post ← find_active_post post_id
  found ← Social.find_reaction post_id actor.id kind
  Social.remove_reaction post_id actor.id kind
  if is_some found then undo actor post_id post kind else pure tt
  Social.counts_by_post post_id

abbrev pub follow_new : AuthUser → User → ℕ → Exec Bool
follow_new actor target target_user_id =
    Social.add_follow actor.id target_user_id
    >> publish (user_followed actor.id actor.username target.id)
    >> pure true

unfoldable pub follow : AuthUser → ℕ → Exec Bool
unfolding ◌>>=◌ check_ban Users.find_by_id Social.find_follow Social.add_follow
follow actor target_user_id = do
  check_ban actor
  refuse_if (actor.id == target_user_id) (unprocessable_entity "You cannot follow yourself.")
  found ← Users.find_by_id target_user_id
  target ← lift (or_not_found found)
  existing ← Social.find_follow actor.id target_user_id
  if is_some existing then pure true else follow_new actor target target_user_id

unfoldable pub unfollow : AuthUser → ℕ → Exec Bool
unfolding ◌>>=◌ check_ban Social.remove_follow
unfollow actor target_user_id = do
  check_ban actor
  Social.remove_follow actor.id target_user_id
  pure false

unfoldable pub bookmark : AuthUser → ℕ → Exec Bool
unfolding ◌>>=◌ check_ban Threads.find_by_id Social.find_bookmark Social.add_bookmark
bookmark actor thread_id = do
  check_ban actor
  found ← Threads.find_by_id thread_id
  thread ← lift (or_not_found found)
  refuse_if (is_deleted_status thread.status) not_found
  existing ← Social.find_bookmark actor.id thread_id
  if is_some existing then pure true else Social.add_bookmark actor.id thread_id >> pure true

unfoldable pub remove_bookmark : AuthUser → ℕ → Exec Bool
unfolding ◌>>=◌ check_ban Social.remove_bookmark
remove_bookmark actor thread_id = do
  check_ban actor
  Social.remove_bookmark actor.id thread_id
  pure false
