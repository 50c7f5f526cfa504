-- ===== src/PostUseCase/References/Outcomes.antt =====
-- The counts after `create`, `edit` and `reject_post`, whatever they answer.
use ferum_board.Prelude.{
  ℕ, ◌≡◌, refl, sym, ◌∙◌, ap, inl, inr, true, Bool-cases, some, List, [], Text, arith, find_row,
  update_rows,
}
use ferum_board.Domain.Error.{ok}
use ferum_board.Domain.AuthUser.{AuthUser}
use ferum_board.Domain.Forum.{Post, Thread}
use ferum_board.Store.{Env, StoredFile}
use ferum_board.Exec.{World, pure, refuse_if}
use ferum_board.Exec.Runs.{Quiet, bind-ok, pure-ok, Reads-ok, outcome}
use ferum_board.Exec.Keeps.{Keeps, keeps_rules, after}
use ferum_board.Repo.Posts
use ferum_board.PostUseCase.{
  sync_attachment_refs, some_post, some_thread, finish_create, create, prepare_create,
  CreatePostCmd,
}
use ferum_board.PostUseCase.Change.{prepare_edit, finish_edit, edit, release_refs}
use ferum_board.PostUseCase.Queue.{prepare_review, reject_post}
use ferum_board.PostUseCase.Atomicity.{Reads-prepare_create}
use ferum_board.PostUseCase.Atomicity.Operations.{
  Reads-prepare_edit, Reads-prepare_review, create_atomic, edit_atomic, reject_atomic,
}
use ferum_board.PostUseCase.References.{RefsOk, synced, embeddings-update, HasDistinctIds}
use ferum_board.PostUseCase.References.Sync.{sync_files, Keeps-posts-sync}
use ferum_board.PostUseCase.References.Operations.{
  some_post-ok, soft_delete-ok, RefsOk-cast, finish_RefsOk, release_refs_files,
}
use ferum_board.PostUseCase.References.Texts.{
  prepare_edit-ok, update_content-ok, edited-RefsOk, inserted-RefsOk, create_row-ok,
  Keeps-posts-finish_create, Keeps-files-announce,
}

prepare_review-ok :
    (env : Env) (w : World) {v : World} {r : Post × Thread} (actor : AuthUser) (id : ℕ)
    → prepare_review actor id env w ≡ (ok r, v)
    → Posts.row id w.db ≡ some r.0
unfolding prepare_review
prepare_review-ok env w actor id h =
    let (p', u1, h1, k1) = bind-ok env (some_post id) _ w h in
    let (x, u2, h2, k2) = bind-ok env (refuse_if _ _) _ u1 k1 in
    let (t, u3, h3, k3) = bind-ok env (some_thread p'.thread_id) _ u2 k2 in
    let (y, u4, h4, k4) = bind-ok env (refuse_if _ _) _ u3 k3 in
    some_post-ok env w id h1 ∙ ap some (ap (λ s. s.0) (pure-ok env u4 (p', t) k4).0)

pub Keeps-posts-finish_edit :
    (old new : Text) (p : Post) → Keeps (λ db. db.posts) (finish_edit old new p)
unfolding finish_edit
Keeps-posts-finish_edit old new p = search (keeps_rules, Keeps-posts-sync)

pub Keeps-posts-release_refs : (p : Post) → Keeps (λ db. db.posts) (release_refs p)
unfolding release_refs
Keeps-posts-release_refs p = search (keeps_rules, Keeps-posts-sync)

-- Marking a post that is deleted already changes no count.
again-RefsOk :
    (by now : ℕ) (id : ℕ) (p : Post) (posts : List Post) (fs : List StoredFile)
    → HasDistinctIds posts
    → find_row (Posts.has_id id) posts ≡ some p
    → p.is_deleted ≡ true
    → RefsOk posts fs
    → RefsOk (update_rows (Posts.has_id id) (Posts.deleted by now) posts) fs
unfolding Posts.deleted
again-RefsOk by now id p posts fs ids found gone refs = record {
  counted = λ key f present. ground (
    arith,
    embeddings-update key id (Posts.deleted by now) posts p ids found,
    gone,
    refs.counted key f present,
  );
}

module _ (env : Env) (q : Quiet env) (has : env.has_storage ≡ true) where
  finish_create_files :
      (actor : AuthUser) (t : Thread) (p : Post) (w : World)
      → (finish_create actor t p env w).1.db.files ≡ synced [] p.content_md w.db.files
  unfolding finish_create
  finish_create_files actor t p w =
      after (λ db. db.files) (sync_attachment_refs [] p.content_md) _ env w
        (λ _. search (keeps_rules, Keeps-files-announce))
      ∙ sync_files env q [] p.content_md w has

  finish_edit_files :
      (old new : Text) (p : Post) (w : World)
      → (finish_edit old new p env w).1.db.files ≡ synced old new w.db.files
  unfolding finish_edit
  finish_edit_files old new p w =
      after (λ db. db.files) (sync_attachment_refs old new) _ env w (λ _. search (keeps_rules))
      ∙ sync_files env q old new w has

  created-RefsOk :
      (w v : World) (actor : AuthUser) (cmd : CreatePostCmd) (p : Post)
      → RefsOk w.db.posts w.db.files
      → create actor cmd env w ≡ (ok p, v)
      → RefsOk v.db.posts v.db.files
  unfolding create
  created-RefsOk w v actor cmd p refs h =
      let ((t, row), u, h1, k1) = bind-ok env (prepare_create actor cmd) _ w h in
      let (post, u', h2, k2) = bind-ok env (Posts.create row) _ u k1 in
      let same = Reads-ok env w _ (Reads-prepare_create actor cmd) h1 in
      let (posts, files, live) = create_row-ok env u row h2 in
      let old =
        RefsOk-cast (ap (λ db. db.posts) (sym same)) (ap (λ db. db.files) (sym same)) refs in
      RefsOk-cast
        (sym posts
          ∙ sym ((Keeps-posts-finish_create actor t post).same env u')
          ∙ ap (λ r. r.1.db.posts) k2)
        (ap (synced [] post.content_md) (sym files)
          ∙ sym (finish_create_files actor t post u')
          ∙ ap (λ r. r.1.db.files) k2)
        (inserted-RefsOk post u.db.posts u.db.files live old)

  rewritten-RefsOk :
      (w v : World) (actor : AuthUser) (id : ℕ) (md : Text) (p : Post)
      → HasDistinctIds w.db.posts
      → RefsOk w.db.posts w.db.files
      → edit actor id md env w ≡ (ok p, v)
      → RefsOk v.db.posts v.db.files
  unfolding edit
  rewritten-RefsOk w v actor id md p ids refs h =
      let ((post, html), u, h1, k1) = bind-ok env (prepare_edit actor id md) _ w h in
      let (updated, u', h2, k2) = bind-ok env (Posts.update_content id md html actor.id) _ u k1 in
      let same = Reads-ok env w _ (Reads-prepare_edit actor id md) h1 in
      let (found, live) = prepare_edit-ok env w actor id md h1 in
      let written =
        update_content-ok env u id actor.id md html h2 ∙ ap (Posts.update_row id _) same in
      RefsOk-cast
        (ap (λ db. db.posts) (sym written)
          ∙ sym ((Keeps-posts-finish_edit post.content_md md updated).same env u')
          ∙ ap (λ r. r.1.db.posts) k2)
        (ap (λ db. synced post.content_md md db.files) (sym written)
          ∙ sym (finish_edit_files post.content_md md updated u')
          ∙ ap (λ r. r.1.db.files) k2)
        (edited-RefsOk md html actor.id env.now id post w.db.posts w.db.files ids found live refs)

  release_nothing :
      (p : Post) (w : World) → p.is_deleted ≡ true → (release_refs p env w).1.db.files ≡ w.db.files
  unfolding release_refs pure
  release_nothing p w gone = simp gone refl

  rejected-RefsOk :
      (w v : World) (actor : AuthUser) (id : ℕ)
      → HasDistinctIds w.db.posts
      → RefsOk w.db.posts w.db.files
      → reject_post actor id env w ≡ (ok tt, v)
      → RefsOk v.db.posts v.db.files
  unfolding reject_post
  rejected-RefsOk w v actor id ids refs h =
      let ((p, t), u, h1, k1) = bind-ok env (prepare_review actor id) _ w h in
      let (x, u', h2, k2) = bind-ok env (Posts.soft_delete id actor.id) _ u k1 in
      let same = Reads-ok env w _ (Reads-prepare_review actor id) h1 in
      let found = prepare_review-ok env w actor id h1 in
      let marked = soft_delete-ok env u id actor.id h2 ∙ ap (Posts.update_row id _) same in
      let posts =
        ap (λ r. r.1.db.posts) (sym k2)
        ∙ (Keeps-posts-release_refs p).same env u'
        ∙ ap (λ db. db.posts) marked in
      elim (Bool-cases p.is_deleted) [
        | inl gone ↦
            RefsOk-cast (sym posts)
              (ap (λ db. db.files) (sym marked)
                ∙ sym (release_nothing p u' gone)
                ∙ ap (λ r. r.1.db.files) k2)
              (again-RefsOk actor.id env.now id p w.db.posts w.db.files ids found gone refs)
        | inr live ↦ finish_RefsOk env q has actor.id id p w.db v ids refs found live posts (
            ap (λ r. r.1.db.files) (sym k2)
            ∙ release_refs_files env q has p u' live
            ∙ ap (λ db. synced p.content_md [] db.files) marked)
      ]

  -- Where no call fails and storage is configured, and where each file's count is the number of
  -- undeleted posts that embed it, creating a post keeps that so, whether the post is published, held
  -- for approval, or refused.
  pub create-RefsOk :
      (w : World) (actor : AuthUser) (cmd : CreatePostCmd)
      → RefsOk w.db.posts w.db.files
      → RefsOk (create actor cmd env w).1.db.posts (create actor cmd env w).1.db.files
  create-RefsOk w actor cmd refs = elim (outcome (create actor cmd) env w) [
    | inl (p, h) ↦ created-RefsOk w _ actor cmd p refs h
    | inr (e, h) ↦
        let same = sym (create_atomic env w actor e cmd h) in
        RefsOk-cast (ap (λ db. db.posts) same) (ap (λ db. db.files) same) refs
  ]

  -- Where no call fails and storage is configured, where the posts have distinct identifiers and each
  -- file's count is the number of undeleted posts that embed it, editing a post keeps that so, whatever
  -- the edit answers and whichever attachments it adds or removes.
  pub edit-RefsOk :
      (w : World) (actor : AuthUser) (id : ℕ) (md : Text)
      → HasDistinctIds w.db.posts
      → RefsOk w.db.posts w.db.files
      → RefsOk (edit actor id md env w).1.db.posts (edit actor id md env w).1.db.files
  edit-RefsOk w actor id md ids refs = elim (outcome (edit actor id md) env w) [
    | inl (p, h) ↦ rewritten-RefsOk w _ actor id md p ids refs h
    | inr (e, h) ↦
        let same = sym (edit_atomic env w actor e id md h) in
        RefsOk-cast (ap (λ db. db.posts) same) (ap (λ db. db.files) same) refs
  ]

  -- Where no call fails and storage is configured, where the posts have distinct identifiers and each
  -- file's count is the number of undeleted posts that embed it, rejecting a post keeps that so, also
  -- where the post was rejected before.
  pub reject-RefsOk :
      (w : World) (actor : AuthUser) (id : ℕ)
      → HasDistinctIds w.db.posts
      → RefsOk w.db.posts w.db.files
      → RefsOk (reject_post actor id env w).1.db.posts (reject_post actor id env w).1.db.files
  reject-RefsOk w actor id ids refs = elim (outcome (reject_post actor id) env w) [
    | inl (x, h) ↦ rejected-RefsOk w _ actor id ids refs h
    | inr (e, h) ↦
        let same = sym (reject_atomic env w actor e id h) in
        RefsOk-cast (ap (λ db. db.posts) same) (ap (λ db. db.files) same) refs
  ]
