-- ===== src/PostUseCase/References/Texts.antt =====
-- What `create` and `edit` do to the posts and the files, step by step.
use ferum_board.Prelude.{
  ℕ, ◌≡◌, sym, ◌∙◌, ap, false, Option, none, some, List, [], ◌∷◌, Text, arith, find_row,
  update_rows, total,
}
use ferum_board.Domain.Error.{ok}
use ferum_board.Domain.AuthUser.{AuthUser}
use ferum_board.Domain.User.{User}
use ferum_board.Domain.Forum.{Post, Thread}
use ferum_board.Store.{Db, Env, StoredFile}
use ferum_board.Exec.{World, attempt, step, ask, lift, before_hook}
use ferum_board.Exec.Runs.{bind-ok, lift-ok, pure-ok, Reads-ok}
use ferum_board.Exec.Rules.{Reads, reads_rules, Reads-bind, Reads-attempt, Reads-read, Reads-pure}
use ferum_board.Exec.Keeps.{Keeps, keeps_rules, Keeps-of_Reads, Keeps-write, Keeps-publish}
use ferum_board.Repo.Posts
use ferum_board.Repo.Threads
use ferum_board.Repo.Users
use ferum_board.Repo.Config
use ferum_board.Permission.Laws.{can_edit_post_iff}
use ferum_board.PostUseCase.{
  some_post, some_thread, check_content, render_content, publish_mention, find_mentioned, announce,
  finish_create,
}
use ferum_board.PostUseCase.Change.{prepare_edit}
use ferum_board.PostUseCase.Atomicity.{Reads-check_content}
use ferum_board.PostUseCase.References.{
  RefsOk, synced, synced-RefsOk, embeddings, embeddings-update, HasDistinctIds,
}
use ferum_board.PostUseCase.References.Sync.{Keeps-posts-sync}
use ferum_board.PostUseCase.References.Operations.{some_post-ok, embeds_empty}

-- What `edit` has found where its checks pass.
pub prepare_edit-ok :
    (env : Env) (w : World) {v : World} {r : Post × Text} (actor : AuthUser) (id : ℕ) (md : Text)
    → prepare_edit actor id md env w ≡ (ok r, v)
    → (Posts.row id w.db ≡ some r.0) × (r.0.is_deleted ≡ false)
unfolding prepare_edit
prepare_edit-ok env w actor id md h =
    let (c, u0, h0, k0) = bind-ok env (check_content md) _ w h in
    let (p', u1, h1, k1) = bind-ok env (some_post id) _ u0 k0 in
    let (t, u2, h2, k2) = bind-ok env (some_thread p'.thread_id) _ u1 k1 in
    let (hours, u3, h3, k3) = bind-ok env (Config.get_config_i64 _ _) _ u2 k2 in
    let (now, u4, h4, k4) = bind-ok env (ask (λ e. e.now)) _ u3 k3 in
    let (x, u5, h5, k5) = bind-ok env (lift _) _ u4 k4 in
    let (y, u6, h6, k6) = bind-ok env (before_hook _) _ u5 k5 in
    let (html, u7, h7, k7) = bind-ok env (render_content md) _ u6 k6 in
    let same = ap (λ s. s.0) (pure-ok env u7 (p', html) k7).0 in
    let may = (can_edit_post_iff actor p' t.category_id hours now).0 (lift-ok env u4 _ h5).0 in
    let start = Reads-ok env w _ (Reads-check_content md) h0 in
    (
      ap (Posts.row id) (sym start) ∙ some_post-ok env u0 id h1 ∙ ap some same,
      ap (λ z. z.is_deleted) (sym same) ∙ may.live,
    )

pub update_content-ok :
    (env : Env) (w : World) {v : World} {p' : Post} (id by : ℕ) (md html : Text)
    → Posts.update_content id md html by env w ≡ (ok p', v)
    → v.db ≡ Posts.update_row id (Posts.edited md html by env.now) w.db
unfolding Posts.update_content step
update_content-ok env w id by md html h = ground arith

-- An undeleted post moves from its text to another one.
pub edited-RefsOk :
    (md html : Text) (by now : ℕ) (id : ℕ) (p : Post) (posts : List Post) (fs : List StoredFile)
    → HasDistinctIds posts
    → find_row (Posts.has_id id) posts ≡ some p
    → p.is_deleted ≡ false
    → RefsOk posts fs
    → RefsOk
        (update_rows (Posts.has_id id) (Posts.edited md html by now) posts)
        (synced p.content_md md fs)
unfolding Posts.edited
edited-RefsOk md html by now id p posts fs ids found live refs =
    synced-RefsOk p.content_md md posts _ fs refs (λ key.
      ground
        (arith, embeddings-update key id (Posts.edited md html by now) posts p ids found, live))

-- A new post brings its attachments.
pub inserted-RefsOk :
    (p : Post) (posts : List Post) (fs : List StoredFile)
    → p.is_deleted ≡ false
    → RefsOk posts fs
    → RefsOk (p ∷ posts) (synced [] p.content_md fs)
unfolding embeddings total
inserted-RefsOk p posts fs live refs =
    synced-RefsOk [] p.content_md posts _ fs refs (λ key. ground (arith, embeds_empty key, live))

pub create_row-ok :
    (env : Env) (w : World) {v : World} {p : Post} (cmd : Posts.NewPost)
    → Posts.create cmd env w ≡ (ok p, v)
    → (v.db.posts ≡ p ∷ w.db.posts) × (v.db.files ≡ w.db.files) × (p.is_deleted ≡ false)
unfolding Posts.create step Posts.inserted
create_row-ok env w cmd h = (ground arith, ground arith, ground arith)

Reads-find_mentioned : (names : List Text) → Reads (find_mentioned names)
unfolding find_mentioned Users.find_by_username
Reads-find_mentioned [] = search reads_rules
Reads-find_mentioned (n ∷ names) =
    Reads-bind (attempt _) _ (Reads-attempt _ (Reads-read _)) (λ found.
      Reads-bind (find_mentioned names) _ (Reads-find_mentioned names) (λ rest. Reads-pure _))

Keeps-posts-mention :
    (actor : AuthUser) (t : Thread) (p : Post) (m : Option (Option User))
    → Keeps (λ db. db.posts) (publish_mention actor t p m)
unfolding publish_mention
Keeps-posts-mention actor t p (some (some u)) = search (keeps_rules, Keeps-publish)
Keeps-posts-mention actor t p (some none) = search keeps_rules
Keeps-posts-mention actor t p none = search keeps_rules

Keeps-files-mention :
    (actor : AuthUser) (t : Thread) (p : Post) (m : Option (Option User))
    → Keeps (λ db. db.files) (publish_mention actor t p m)
unfolding publish_mention
Keeps-files-mention actor t p (some (some u)) = search (keeps_rules, Keeps-publish)
Keeps-files-mention actor t p (some none) = search keeps_rules
Keeps-files-mention actor t p none = search keeps_rules

module _ {B : Type 0} (part : Db → B) where
  Keeps-find_mentioned : (names : List Text) → Keeps part (find_mentioned names)
  unfolding find_mentioned Users.find_by_username
  Keeps-find_mentioned names = Keeps-of_Reads part _ (Reads-find_mentioned names)

pub Keeps-posts-finish_create :
    (actor : AuthUser) (t : Thread) (p : Post) → Keeps (λ db. db.posts) (finish_create actor t p)
unfolding finish_create announce Threads.update_reply_stats Users.increment_post_count
Keeps-posts-finish_create actor t p =
    search
      (
        keeps_rules, reads_rules, Keeps-posts-sync, Keeps-write, Keeps-publish,
        Keeps-find_mentioned, Keeps-posts-mention,
      )
      depth 40

pub Keeps-files-announce :
    (actor : AuthUser) (t : Thread) (p : Post) → Keeps (λ db. db.files) (announce actor t p)
unfolding announce Threads.update_reply_stats Users.increment_post_count
Keeps-files-announce actor t p =
    search
      (
        keeps_rules, reads_rules, Keeps-write, Keeps-publish, Keeps-find_mentioned,
        Keeps-files-mention,
      )
      depth 40
