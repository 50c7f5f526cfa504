-- ===== src/PostUseCase/References/Operations.antt =====
-- The counts after `delete` and `reject_post`.
use ferum_board.Prelude.{
  ℕ, ◌≡◌, refl, sym, ◌∙◌, ap, subst, inl, inr, true, false, some, List, [], Text, arith, find_row,
  update_rows,
}
use ferum_board.Domain.Error.{ok}
use ferum_board.Domain.AuthUser.{AuthUser}
use ferum_board.Domain.Forum.{Post}
use ferum_board.Store.{Db, Env, StoredFile}
use ferum_board.Exec.{World, step, ask, ◌>>=◌, lift, read, before_hook}
use ferum_board.Exec.Runs.{Quiet, bind-ok, lift-ok, pure-ok, Reads-ok, outcome}
use ferum_board.Exec.Keeps.{Keeps, keeps_rules, Keeps-write, Keeps-publish, after}
use ferum_board.Repo.Posts
use ferum_board.Repo.Threads
use ferum_board.Repo.Users
use ferum_board.Permission.Laws.{can_delete_post_iff}
use ferum_board.PostUseCase.{some_post, some_thread}
use ferum_board.PostUseCase.Change.{prepare_delete, release_refs, uncount, finish_delete, delete}
use ferum_board.PostUseCase.Content.{extract_attachment_keys, keys_from}
use ferum_board.Text.{distinct, mem_text}
use ferum_board.PostUseCase.Atomicity.Operations.{Reads-prepare_delete, delete_atomic}
use ferum_board.PostUseCase.References.{
  RefsOk, synced, synced-RefsOk, embeds, embeddings-update, HasDistinctIds,
}
use ferum_board.PostUseCase.References.Sync.{sync_files, Keeps-posts-sync}

pub some_post-ok :
    (env : Env) (w : World) {u : World} {p : Post} (id : ℕ)
    → some_post id env w ≡ (ok p, u)
    → Posts.row id w.db ≡ some p
unfolding Posts.find_by_id read step ◌>>=◌ lift
some_post-ok env w id h = ground arith

-- What `delete` has found where its checks pass.
prepare_delete-ok :
    (env : Env) (w : World) {v : World} {p : Post} (actor : AuthUser) (id : ℕ)
    → prepare_delete actor id env w ≡ (ok p, v)
    → (Posts.row id w.db ≡ some p) × (p.is_deleted ≡ false)
unfolding prepare_delete
prepare_delete-ok env w actor id h =
    let (p', u1, h1, k1) = bind-ok env (some_post id) _ w h in
    let (t, u2, h2, k2) = bind-ok env (some_thread p'.thread_id) _ u1 k1 in
    let (now, u3, h3, k3) = bind-ok env (ask (λ e. e.now)) _ u2 k2 in
    let (x, u4, h4, k4) = bind-ok env (lift _) _ u3 k3 in
    let (y, u5, h5, k5) = bind-ok env (before_hook _) _ u4 k4 in
    let same = (pure-ok env u5 p' k5).0 in
    let may = (can_delete_post_iff actor p' t.category_id now).0 (lift-ok env u3 _ h4).0 in
    (some_post-ok env w id h1 ∙ ap some same, ap (λ z. z.is_deleted) (sym same) ∙ may.1)

Keeps-files-uncount : (p : Post) → Keeps (λ db. db.files) (uncount p)
unfolding uncount Threads.update_reply_stats Users.increment_post_count
Keeps-files-uncount p = search (keeps_rules, Keeps-write) depth 20

pub Keeps-posts-finish_delete :
    (actor : AuthUser) (id : ℕ) (p : Post) → Keeps (λ db. db.posts) (finish_delete actor id p)
unfolding finish_delete uncount release_refs Threads.update_reply_stats Users.increment_post_count
Keeps-posts-finish_delete actor id p =
    search (keeps_rules, Keeps-posts-sync, Keeps-write, Keeps-publish) depth 20

pub embeds_empty : (key : Text) → embeds key [] ≡ 0
unfolding embeds extract_attachment_keys keys_from distinct mem_text
embeds_empty key = refl

pub RefsOk-cast :
    {posts posts' : List Post} {fs fs' : List StoredFile}
    → posts ≡ posts'
    → fs ≡ fs'
    → RefsOk posts fs
    → RefsOk posts' fs'
RefsOk-cast {posts} {fs' = fs'} e d r =
    subst (λ x. RefsOk x fs') e (subst (λ x. RefsOk posts x) d r)

pub soft_delete-ok :
    (env : Env) (w : World) {v : World} {x : Unit {0}} (id by : ℕ)
    → Posts.soft_delete id by env w ≡ (ok x, v)
    → v.db ≡ Posts.update_row id (Posts.deleted by env.now) w.db
unfolding Posts.soft_delete step
soft_delete-ok env w id by h = ground arith

-- A post that goes takes its references with it.
gone-RefsOk :
    (by now : ℕ) (id : ℕ) (p : Post) (posts : List Post) (fs : List StoredFile)
    → HasDistinctIds posts
    → find_row (Posts.has_id id) posts ≡ some p
    → p.is_deleted ≡ false
    → RefsOk posts fs
    → RefsOk
        (update_rows (Posts.has_id id) (Posts.deleted by now) posts)
        (synced p.content_md [] fs)
unfolding Posts.deleted
gone-RefsOk by now id p posts fs ids found live refs =
    synced-RefsOk p.content_md [] posts _ fs refs (λ key. ground (
      arith,
      embeddings-update key id (Posts.deleted by now) posts p ids found,
      embeds_empty key,
      live,
    ))

module _ (env : Env) (q : Quiet env) (has : env.has_storage ≡ true) where
  pub release_refs_files :
      (p : Post) (w : World)
      → p.is_deleted ≡ false
      → (release_refs p env w).1.db.files ≡ synced p.content_md [] w.db.files
  unfolding release_refs
  release_refs_files p w live = simp live (sync_files env q p.content_md [] w has)

  finish_delete_files :
      (actor : AuthUser) (id : ℕ) (p : Post) (w : World)
      → p.is_deleted ≡ false
      → (finish_delete actor id p env w).1.db.files ≡ synced p.content_md [] w.db.files
  unfolding finish_delete
  finish_delete_files actor id p w live =
      after (λ db. db.files) (release_refs p) _ env w
        (λ _. search (keeps_rules, Keeps-publish, Keeps-files-uncount) depth 20)
      ∙ release_refs_files p w live

  pub finish_RefsOk :
      (by id : ℕ) (p : Post) (db : Db) (v : World)
      → HasDistinctIds db.posts
      → RefsOk db.posts db.files
      → Posts.row id db ≡ some p
      → p.is_deleted ≡ false
      → v.db.posts ≡ update_rows (Posts.has_id id) (Posts.deleted by env.now) db.posts
      → v.db.files ≡ synced p.content_md [] db.files
      → RefsOk v.db.posts v.db.files
  finish_RefsOk by id p db v ids refs found live posts files =
      RefsOk-cast (sym posts) (sym files)
        (gone-RefsOk by env.now id p db.posts db.files ids found live refs)

  deleted-RefsOk :
      (w v : World) (actor : AuthUser) (id : ℕ)
      → HasDistinctIds w.db.posts
      → RefsOk w.db.posts w.db.files
      → delete actor id env w ≡ (ok tt, v)
      → RefsOk v.db.posts v.db.files
  unfolding delete
  deleted-RefsOk w v actor id ids refs h =
      let (p, u, h1, k1) = bind-ok env (prepare_delete actor id) _ w h in
      let (x, u', h2, k2) = bind-ok env (Posts.soft_delete id actor.id) _ u k1 in
      let (found, live) = prepare_delete-ok env w actor id h1 in
      let same = Reads-ok env w _ (Reads-prepare_delete actor id) h1 in
      let marked = soft_delete-ok env u id actor.id h2 ∙ ap (Posts.update_row id _) same in
      finish_RefsOk actor.id id p w.db v ids refs found live
        (ap (λ r. r.1.db.posts) (sym k2)
          ∙ (Keeps-posts-finish_delete actor id p).same env u'
          ∙ ap (λ db. db.posts) marked)
        (ap (λ r. r.1.db.files) (sym k2)
          ∙ finish_delete_files actor id p u' live
          ∙ ap (λ db. synced p.content_md [] db.files) marked)

  -- Where no call fails and storage is configured, where the posts have distinct identifiers and each
  -- file's count is the number of undeleted posts that embed it, deleting a post, whether it succeeds or
  -- is refused, leaves each file's count the number of undeleted posts that embed it.
  pub delete-RefsOk :
      (w : World) (actor : AuthUser) (id : ℕ)
      → HasDistinctIds w.db.posts
      → RefsOk w.db.posts w.db.files
      → RefsOk (delete actor id env w).1.db.posts (delete actor id env w).1.db.files
  delete-RefsOk w actor id ids refs = elim (outcome (delete actor id) env w) [
    | inl (x, h) ↦ deleted-RefsOk w _ actor id ids refs h
    | inr (e, h) ↦
        let same = sym (delete_atomic env w actor e id h) in
        RefsOk-cast (ap (λ db. db.posts) same) (ap (λ db. db.files) same) refs
  ]
