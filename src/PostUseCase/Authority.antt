-- ===== src/PostUseCase/Authority.antt =====
-- Whatever a post operation did, its user was allowed to do.
use ferum_board.Prelude.{
  ℕ, ◌≡◌, ◌≢◌, refl, sym, ◌∙◌, ap, true, false, not, ◌&&◌, Option, none, some, arith, ◌==◌, is_some,
  find_row, subst, [], ◌∷◌, if◌then◌else◌,
}
use ferum_board.Domain.Error.{Result, ok}
use ferum_board.Domain.Perm
use ferum_board.Domain.AuthUser.{AuthUser, has_perm, has_perm_in}
use ferum_board.Domain.Forum.{
  Post, Thread, Category, locked, is_locked, PostStatus, pending, published, is_pending,
}
use ferum_board.Store.{Db, Env}
use ferum_board.Exec.{World, Exec, pure, step, read, lift, refuse_if, ask, ◌>>=◌}
use ferum_board.Exec.Rules.{Reads, reads_rules, Reads-refuse_if}
use ferum_board.Exec.Gives.{Gives, Gives-pure, Gives-bind, Gives-any}
use ferum_board.Exec.Runs.{pure-ok, refuse_if-ok, ask-ok, bind-ok, lift-ok, Reads-ok}
use ferum_board.Repo.Posts
use ferum_board.Repo.Threads
use ferum_board.Permission.{can_create_post, can_delete_post}
use ferum_board.PostUseCase.{
  sync_attachment_refs, announce, finish_create, CreatePostCmd, create, prepare_create, some_post,
  some_thread, some_category,
}
use ferum_board.PostUseCase.Change.{delete, prepare_delete}
use ferum_board.PostUseCase.Queue.{prepare_review, approve_post}
use ferum_board.PostUseCase.References.Texts.{create_row-ok, Keeps-posts-finish_create}
use ferum_board.PostUseCase.Atomicity.{Reads-prepare_create, Reads-some_thread, Reads-some_post}
use ferum_board.PostUseCase.References.Operations.{some_post-ok}

-- A user may post to a thread of the database: the thread is neither deleted nor locked, and the
-- permission check of its category passes.
pub record MayReply (db : Db) (actor : AuthUser) (thread_id now : ℕ) : Type 0 where
  pub thread : Thread
  pub found : Threads.row thread_id db ≡ some thread
  pub live : thread.deleted_at ≡ none
  pub open_for_posts : thread.status ≢ locked
  pub category : Category
  pub in_category : find_row (λ c. c.id == thread.category_id) db.categories ≡ some category
  pub allowed : can_create_post actor category now ≡ ok tt

some_thread-ok :
    (env : Env) (w : World) {u : World} {t : Thread} (id : ℕ)
    → some_thread id env w ≡ (ok t, u)
    → Threads.row id w.db ≡ some t
unfolding Threads.find_by_id read step ◌>>=◌ lift
some_thread-ok env w id h = ground arith

pub Reads-some_category : (id : ℕ) → Reads (some_category id)
unfolding Threads.find_category
Reads-some_category id = search reads_rules

pub some_category-ok :
    (env : Env) (w : World) {u : World} {c : Category} (id : ℕ)
    → some_category id env w ≡ (ok c, u)
    → find_row (λ x. x.id == id) w.db.categories ≡ some c
unfolding Threads.find_category read step ◌>>=◌ lift
some_category-ok env w id h = ground arith

not_some : (o : Option ℕ) → is_some o ≡ false → o ≡ none
not_some none h = refl
not_some (some n) h = cc

not_locked : (t : Thread) → is_locked t.status ≡ false → t.status ≢ locked
not_locked t h e = ground (arith, h, e)

prepare_create-MayReply :
    (env : Env) (w : World) {v : World} {r : Thread × Posts.NewPost} (actor : AuthUser)
    (cmd : CreatePostCmd)
    → prepare_create actor cmd env w ≡ (ok r, v)
    → MayReply w.db actor cmd.thread_id env.now
unfolding prepare_create
prepare_create-MayReply env w actor cmd h =
    let (t, u1, h1, k1) = bind-ok env (some_thread cmd.thread_id) _ w h in
    let (x, u2, h2, k2) = bind-ok env (refuse_if _ _) _ u1 k1 in
    let (y, u3, h3, k3) = bind-ok env (refuse_if _ _) _ u2 k2 in
    let (c, u4, h4, k4) = bind-ok env (some_category t.category_id) _ u3 k3 in
    let (now, u5, h5, k5) = bind-ok env (ask (λ e. e.now)) _ u4 k4 in
    let (z, u6, h6, k6) = bind-ok env (lift _) _ u5 k5 in
    let same =
      Reads-ok env u2 _ (Reads-refuse_if _ _) h3
      ∙ Reads-ok env u1 _ (Reads-refuse_if _ _) h2
      ∙ Reads-ok env w _ (Reads-some_thread cmd.thread_id) h1 in
    record {
      thread = t;
      found = some_thread-ok env w cmd.thread_id h1;
      live = not_some t.deleted_at (refuse_if-ok env u1 _ _ h2);
      open_for_posts = not_locked t (refuse_if-ok env u2 _ _ h3);
      category = c;
      in_category =
          ap (λ db. find_row (λ q. q.id == t.category_id) db.categories) (sym same)
          ∙ some_category-ok env u3 t.category_id h4;
      allowed = ap (can_create_post actor c) (ask-ok env u4 h5) ∙ (lift-ok env u5 _ h6).0;
    }

-- The row has the thread, the author, the parent and the text that the command asks for.
abbrev RowOf : AuthUser → CreatePostCmd → Thread × Posts.NewPost → Type 0
RowOf actor cmd r =
    (r.1.thread_id ≡ cmd.thread_id)
    × ((r.1.author_id ≡ actor.id)
        × ((r.1.parent_id ≡ cmd.parent_id) × (r.1.content_md ≡ cmd.content_md)))

module _ (actor : AuthUser) (cmd : CreatePostCmd) where
  after :
      {B : Type 0} (m : Exec B) (f : B → Exec (Thread × Posts.NewPost))
      → ((b : B) → Gives (RowOf actor cmd) (f b))
      → Gives (RowOf actor cmd) (m >>= f)
  after {B} m f g = Gives-bind (RowOf actor cmd) (λ b. Unit {0}) m f (Gives-any m) (λ b t. g b)

  -- The row that the checks make of a command.
  prepare_create-RowOf : Gives (RowOf actor cmd) (prepare_create actor cmd)
  unfolding prepare_create
  prepare_create-RowOf = after _ _ (λ x0. after _ _ (λ x1. after _ _ (λ x2. after _ _ (λ x3.
      after _ _ (λ x4. after _ _ (λ x5. after _ _ (λ x6. after _ _ (λ x7. after _ _ (λ x8.
        after _ _ (λ x9.
          after _ _ (λ x10. Gives-pure (RowOf actor cmd) _ (refl, (refl, (refl, refl))))))))))))))

-- What follows the insertion answers the inserted post.
finish_create-ok :
    (env : Env) (w : World) {v : World} {p : Post} (actor : AuthUser) (t : Thread) (post : Post)
    → finish_create actor t post env w ≡ (ok p, v)
    → post ≡ p
unfolding finish_create
finish_create-ok env w actor t post h =
    let (x, u, h1, k1) = bind-ok env (sync_attachment_refs [] post.content_md) _ w h in
    let (y, u2, h2, k2) =
      bind-ok env (if is_pending post.status then pure tt else announce actor t post) _ u k1 in
    (pure-ok env u2 post k2).0

create_row-of :
    (env : Env) (w : World) {v : World} {p : Post} (cmd : Posts.NewPost)
    → Posts.create cmd env w ≡ (ok p, v)
    → (p.thread_id ≡ cmd.thread_id)
      × ((p.author_id ≡ cmd.author_id)
          × ((p.parent_id ≡ cmd.parent_id) × (p.content_md ≡ cmd.content_md)))
unfolding Posts.create step Posts.inserted
create_row-of env w cmd h = (ground arith, (ground arith, (ground arith, ground arith)))

-- Where creating a post succeeds, its thread exists, is neither deleted nor locked, and its author may
-- post in the thread's category at the time of the request; the post that is answered is the one row that
-- is added, and it stands in that thread, with that author and with the parent and the text of the command.
pub create-MayReply :
    (env : Env) (w v : World) (actor : AuthUser) (cmd : CreatePostCmd) (p : Post)
    → create actor cmd env w ≡ (ok p, v)
    → MayReply w.db actor p.thread_id env.now
      × ((v.db.posts ≡ p ∷ w.db.posts)
          × ((p.thread_id ≡ cmd.thread_id)
              × ((p.author_id ≡ actor.id)
                  × ((p.parent_id ≡ cmd.parent_id) × (p.content_md ≡ cmd.content_md)))))
unfolding create
create-MayReply env w v actor cmd p h =
    let ((t, row), u, h1, k1) = bind-ok env (prepare_create actor cmd) _ w h in
    let (post, u', h2, k2) = bind-ok env (Posts.create row) _ u k1 in
    let same = Reads-ok env w _ (Reads-prepare_create actor cmd) h1 in
    let (posts, files, live) = create_row-ok env u row h2 in
    let e = finish_create-ok env u' actor t post k2 in
    let (a1, (a2, (a3, a4))) = (prepare_create-RowOf actor cmd).answer env w u (t, row) h1 in
    let (b1, (b2, (b3, b4))) = create_row-of env u row h2 in
    let thread = ap (λ (y : Post). y.thread_id) (sym e) ∙ b1 ∙ a1 in
    (
      subst (λ i. MayReply w.db actor i env.now) (sym thread)
          (prepare_create-MayReply env w actor cmd h1),
      (
        sym (ap (λ (r : Result Post × World). r.1.db.posts) k2)
            ∙ (Keeps-posts-finish_create actor t post).same env u'
            ∙ posts
            ∙ ap (λ (d : Db). post ∷ d.posts) same
            ∙ ap (λ y. y ∷ w.db.posts) e,
        (
          thread,
          (
            ap (λ (y : Post). y.author_id) (sym e) ∙ b2 ∙ a2,
            (
              ap (λ (y : Post). y.parent_id) (sym e) ∙ b3 ∙ a3,
              ap (λ (y : Post). y.content_md) (sym e) ∙ b4 ∙ a4,
            ),
          ),
        ),
      ),
    )

-- A user may delete a post of the database.
pub record MayDelete (db : Db) (actor : AuthUser) (id now : ℕ) : Type 0 where
  pub post : Post
  pub found : Posts.row id db ≡ some post
  pub thread : Thread
  pub in_thread : Threads.row post.thread_id db ≡ some thread
  pub allowed : can_delete_post actor post thread.category_id now ≡ ok tt

-- Where deleting a post succeeds, the post and its thread exist, and the permission check of the
-- deletion passes for them at the time of the request.
pub delete-MayDelete :
    (env : Env) (w v : World) (actor : AuthUser) (id : ℕ)
    → delete actor id env w ≡ (ok tt, v)
    → MayDelete w.db actor id env.now
unfolding delete prepare_delete
delete-MayDelete env w v actor id h =
    let (p, u, h0, k0) = bind-ok env (prepare_delete actor id) _ w h in
    let (p', u1, h1, k1) = bind-ok env (some_post id) _ w h0 in
    let (t, u2, h2, k2) = bind-ok env (some_thread p'.thread_id) _ u1 k1 in
    let (now, u3, h3, k3) = bind-ok env (ask (λ e. e.now)) _ u2 k2 in
    let (x, u4, h4, k4) = bind-ok env (lift _) _ u3 k3 in
    record {
      post = p';
      found = some_post-ok env w id h1;
      thread = t;
      in_thread =
          ap (Threads.row p'.thread_id) (sym (Reads-ok env w _ (Reads-some_post id) h1))
          ∙ some_thread-ok env u1 p'.thread_id h2;
      allowed =
          ap (can_delete_post actor p' t.category_id) (ask-ok env u2 h3) ∙ (lift-ok env u3 _ h4).0;
    }

-- A user may review a post of the database: the post is pending, and the user sees the reports of its
-- category.
pub record MayReview (db : Db) (actor : AuthUser) (id : ℕ) : Type 0 where
  pub post : Post
  pub found : Posts.row id db ≡ some post
  pub held : post.status ≡ pending
  pub thread : Thread
  pub in_thread : Threads.row post.thread_id db ≡ some thread
  pub allowed : has_perm_in actor Perm.mod_view_reports thread.category_id ≡ true

is_pending-pending : (s : PostStatus) → not (is_pending s) ≡ false → s ≡ pending
is_pending-pending pending h = refl
is_pending-pending published h = cc

reviews_category :
    (actor : AuthUser) (c : ℕ)
    → (not (has_perm actor Perm.mod_view_reports)
        && not (has_perm_in actor Perm.mod_view_reports c))
      ≡ false
    → has_perm_in actor Perm.mod_view_reports c ≡ true
unfolding has_perm_in
reviews_category actor c h = ground (arith, h)

prepare_review-MayReview :
    (env : Env) (w : World) {v : World} {r : Post × Thread} (actor : AuthUser) (id : ℕ)
    → prepare_review actor id env w ≡ (ok r, v)
    → MayReview w.db actor id
unfolding prepare_review
prepare_review-MayReview env w actor id h =
    let (p, u1, h1, k1) = bind-ok env (some_post id) _ w h in
    let (x, u2, h2, k2) = bind-ok env (refuse_if _ _) _ u1 k1 in
    let (t, u3, h3, k3) = bind-ok env (some_thread p.thread_id) _ u2 k2 in
    let (y, u4, h4, k4) = bind-ok env (refuse_if _ _) _ u3 k3 in
    let same =
      Reads-ok env u1 _ (Reads-refuse_if _ _) h2 ∙ Reads-ok env w _ (Reads-some_post id) h1 in
    record {
      post = p;
      found = some_post-ok env w id h1;
      held = is_pending-pending p.status (refuse_if-ok env u1 _ _ h2);
      thread = t;
      in_thread = ap (Threads.row p.thread_id) (sym same) ∙ some_thread-ok env u2 p.thread_id h3;
      allowed = reviews_category actor t.category_id (refuse_if-ok env u3 _ _ h4);
    }

-- Where approving a post succeeds, the post was pending, and its reviewer sees the reports of its
-- category.
pub approve-MayReview :
    (env : Env) (w v : World) (actor : AuthUser) (id : ℕ)
    → approve_post actor id env w ≡ (ok tt, v)
    → MayReview w.db actor id
unfolding approve_post
approve-MayReview env w v actor id h =
    let (r, u, h1, k1) = bind-ok env (prepare_review actor id) _ w h in
    prepare_review-MayReview env w actor id h1
