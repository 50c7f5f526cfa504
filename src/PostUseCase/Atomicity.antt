-- ===== src/PostUseCase/Atomicity.antt =====
-- Which parts of `create` only read, and which cannot fail.
pub mod Operations
use ferum_board.Prelude.{ℕ, ◌≡◌, Bool, true, false, Option, none, some, List, [], ◌∷◌, Text}
use ferum_board.Domain.Error.{AppError, err}
use ferum_board.Domain.AuthUser.{AuthUser}
use ferum_board.Domain.User.{User}
use ferum_board.Domain.Forum.{Post, Thread, Category}
use ferum_board.Store.{Env}
use ferum_board.Exec.{World, attempt}
use ferum_board.Exec.Rules.{
  Reads, Sure, Atomic, reads_rules, sure_rules, Atomic-bind, Atomic-commit, Atomic-step, Reads-read,
  Sure-each, Sure-swallow, Sure-pure, Sure-publish, Reads-bind, Reads-lift, Sure-bind, Sure-attempt,
}
use ferum_board.Repo.Posts
use ferum_board.Repo.Threads
use ferum_board.Repo.Config
use ferum_board.Repo.Users
use ferum_board.PostUseCase.{
  some_post, some_thread, some_category, check_content, check_parent, render_content,
  content_matches_blacklist, resolve_post_status, sync_attachment_refs, update_refs, prepare_create,
  announce, finish_create, create, publish_mention, find_mentioned, CreatePostCmd,
}

pub Reads-some_post : (id : ℕ) → Reads (some_post id)
unfolding Posts.find_by_id
Reads-some_post id = search reads_rules

pub Reads-some_thread : (id : ℕ) → Reads (some_thread id)
unfolding Threads.find_by_id
Reads-some_thread id = search reads_rules

pub Reads-some_category : (id : ℕ) → Reads (some_category id)
unfolding Threads.find_category
Reads-some_category id = search reads_rules

pub Reads-check_content : (md : Text) → Reads (check_content md)
Reads-check_content md = search reads_rules

Reads-check_parent : (p : Option ℕ) (t : ℕ) → Reads (check_parent p t)
Reads-check_parent none t = search reads_rules
Reads-check_parent (some p) t = search (reads_rules, Reads-some_post)

pub Reads-render_content : (md : Text) → Reads (render_content md)
unfolding render_content
Reads-render_content md = search reads_rules

pub Sure-sync_attachment_refs : (old new : Text) → Sure (sync_attachment_refs old new)
unfolding sync_attachment_refs
Sure-sync_attachment_refs old new = search sure_rules

Reads-content_matches_blacklist : (md : Text) → Reads (content_matches_blacklist md)
unfolding content_matches_blacklist Config.get
Reads-content_matches_blacklist md = search reads_rules

Reads-resolve_post_status :
    (actor : AuthUser) (c : Category) (md : Text) → Reads (resolve_post_status actor c md)
unfolding resolve_post_status Config.get
Reads-resolve_post_status actor c md =
    search (reads_rules, Reads-content_matches_blacklist) depth 20

pub Reads-prepare_create :
    (actor : AuthUser) (cmd : CreatePostCmd) → Reads (prepare_create actor cmd)
unfolding prepare_create
Reads-prepare_create actor cmd =
    search
      (
        reads_rules, Reads-some_thread, Reads-some_category, Reads-check_content,
        Reads-check_parent, Reads-render_content, Reads-resolve_post_status,
      )
      depth 40

Sure-publish_mention :
    (actor : AuthUser) (t : Thread) (p : Post) (m : Option (Option User))
    → Sure (publish_mention actor t p m)
unfolding publish_mention
Sure-publish_mention actor t p (some (some u)) = search sure_rules
Sure-publish_mention actor t p (some none) = search sure_rules
Sure-publish_mention actor t p none = search sure_rules

Sure-find_mentioned : (names : List Text) → Sure (find_mentioned names)
unfolding find_mentioned
Sure-find_mentioned [] = search sure_rules
Sure-find_mentioned (n ∷ names) =
    Sure-bind (attempt (Users.find_by_username n)) _ (Sure-attempt _) (λ found.
      Sure-bind (find_mentioned names) _ (Sure-find_mentioned names) (λ rest. Sure-pure _))

Sure-announce : (actor : AuthUser) (t : Thread) (p : Post) → Sure (announce actor t p)
unfolding announce
Sure-announce actor t p = search (sure_rules, Sure-find_mentioned, Sure-publish_mention) depth 20

Sure-finish_create : (actor : AuthUser) (t : Thread) (p : Post) → Sure (finish_create actor t p)
unfolding finish_create
Sure-finish_create actor t p = search (sure_rules, Sure-sync_attachment_refs, Sure-announce)

pub Atomic-create : (actor : AuthUser) (cmd : CreatePostCmd) → Atomic (create actor cmd)
unfolding create Posts.create
Atomic-create actor cmd =
    search (Atomic-bind, Atomic-commit, Atomic-step, Reads-prepare_create, Sure-finish_create)
