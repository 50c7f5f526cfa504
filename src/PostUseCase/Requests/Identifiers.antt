-- ===== src/PostUseCase/Requests/Identifiers.antt =====
-- Identifiers of posts stay distinct, and the counts stay right through an approval.
use ferum_board.Prelude.{
  ℕ, ◌≡◌, ◌≢◌, refl, sym, ◌∙◌, subst, Bool, true, false, Option, none, some, List, [], ◌∷◌, Text,
  arith, if◌then◌else◌, update_rows, total,
}
use ferum_board.Domain.Error.{ok}
use ferum_board.Domain.AuthUser.{AuthUser}
use ferum_board.Domain.Forum.{Post, PostStatus, published, Thread}
use ferum_board.Store.{Db, StoredFile}
use ferum_board.Exec.Keeps.{Keeps, keeps_rules, Keeps-publish, Keeps-write}
use ferum_board.Exec.Rules.{reads_rules}
use ferum_board.Exec.Preserves.{
  Preserves, Preserves-bind, Preserves-step, Preserves-of_Reads, Preserves-of_Keeps,
}
use ferum_board.Repo.Posts
use ferum_board.Repo.Threads
use ferum_board.Repo.Users
use ferum_board.PostUseCase.Change.{edit, delete}
use ferum_board.PostUseCase.Queue.{finish_approve, approve_post, reject_post}
use ferum_board.PostUseCase.Atomicity.Operations.{
  Reads-prepare_edit, Reads-prepare_delete, Reads-prepare_review,
}
use ferum_board.PostUseCase.References.{RefsOk, embeddings, IsNewId, HasDistinctIds}
use ferum_board.PostUseCase.References.Operations.{Keeps-posts-finish_delete}
use ferum_board.PostUseCase.References.Outcomes.{Keeps-posts-finish_edit, Keeps-posts-release_refs}

abbrev pub IdsOk : Db → Type 0
IdsOk db = HasDistinctIds db.posts

module _ (p : Post → Bool) (f : Post → Post) (keeps : (x : Post) → (f x).id ≡ x.id) where
  update-IsNewId :
      (id : ℕ) (posts : List Post) → IsNewId id posts → IsNewId id (update_rows p f posts)
  unfolding update_rows
  update-IsNewId id [] h = tt
  update-IsNewId id (x ∷ posts) h = (new_head (p x) x h.0, update-IsNewId id posts h.1)
    where
      new_head : (b : Bool) (y : Post) → y.id ≢ id → (if b then f y else y).id ≢ id
      new_head true y n = λ e. n (sym (keeps y) ∙ e)
      new_head false y n = n

  id_kept : (b : Bool) (x : Post) → (if b then f x else x).id ≡ x.id
  id_kept true x = keeps x
  id_kept false x = refl

  pub update-HasDistinctIds :
      (posts : List Post) → HasDistinctIds posts → HasDistinctIds (update_rows p f posts)
  unfolding update_rows
  update-HasDistinctIds [] h = tt
  update-HasDistinctIds (x ∷ posts) h = (
    subst (λ i. IsNewId i (update_rows p f posts)) (sym (id_kept (p x) x))
        (update-IsNewId x.id posts h.0),
    update-HasDistinctIds posts h.1,
  )

module _ (id : ℕ) (d d' : Db) where
  written_by_update :
      (o : Option Post) (f : Post → Post) (a : Post)
      → Posts.updated_post o id f d ≡ ok (a, d')
      → Posts.update_row id f d ≡ d'
  written_by_update none f a e = cc
  written_by_update (some p) f a e = ground (arith, e)

  written_by_status :
      (o : Option Post) (s : PostStatus) (a : Unit {0})
      → Posts.status_set o id s d ≡ ok (a, d')
      → Posts.update_row id (Posts.with_status s) d ≡ d'
  written_by_status none s a e = cc
  written_by_status (some p) s a e = ground (arith, e)

update-IdsOk :
    (id : ℕ) (f : Post → Post) (d d' : Db)
    → ((x : Post) → (f x).id ≡ x.id)
    → Posts.update_row id f d ≡ d'
    → IdsOk d
    → IdsOk d'
update-IdsOk id f d d' keeps e h =
    subst IdsOk e (update-HasDistinctIds (Posts.has_id id) f keeps d.posts h)

Preserves-update_content :
    (id by : ℕ) (md html : Text) → Preserves IdsOk (Posts.update_content id md html by)
unfolding Posts.update_content Posts.edited
Preserves-update_content id by md html = Preserves-step IdsOk _ (λ env n d a d' e h.
    update-IdsOk id _ d d' (λ x. refl) (written_by_update id d d' (Posts.row id d) _ a e) h)

Preserves-soft_delete : (id by : ℕ) → Preserves IdsOk (Posts.soft_delete id by)
unfolding Posts.soft_delete Posts.deleted
Preserves-soft_delete id by = Preserves-step IdsOk _ (λ env n d a d' e h.
    update-IdsOk id (Posts.deleted by env.now) d d' (λ x. refl) (ground (arith, e)) h)

Preserves-set_status : (id : ℕ) (s : PostStatus) → Preserves IdsOk (Posts.set_status id s)
unfolding Posts.set_status
Preserves-set_status id s = Preserves-step IdsOk _ (λ env n d a d' e h.
    update-IdsOk id _ d d' (λ x. refl) (written_by_status id d d' (Posts.row id d) s a e) h)

-- The posts, and the files that they embed.
abbrev pub shelf : Db → List Post × List StoredFile
shelf db = (db.posts, db.files)

Keeps-shelf-finish_approve : (p : Post) (t : Thread) → Keeps shelf (finish_approve p t)
unfolding finish_approve Threads.update_reply_stats Users.increment_post_count Users.find_by_id
Keeps-shelf-finish_approve p t =
    search (keeps_rules, reads_rules, Keeps-publish, Keeps-write) depth 30

pub edit-IdsOk : (actor : AuthUser) (id : ℕ) (md : Text) → Preserves IdsOk (edit actor id md)
unfolding edit
edit-IdsOk actor id md =
    Preserves-bind IdsOk _ _ (Preserves-of_Reads IdsOk _ (Reads-prepare_edit actor id md)) (λ r.
      Preserves-bind IdsOk _ _ (Preserves-update_content id actor.id md r.1) (λ p.
        Preserves-of_Keeps (λ db. db.posts) HasDistinctIds _
          (Keeps-posts-finish_edit r.0.content_md md p)))

pub delete-IdsOk : (actor : AuthUser) (id : ℕ) → Preserves IdsOk (delete actor id)
unfolding delete
delete-IdsOk actor id =
    Preserves-bind IdsOk _ _ (Preserves-of_Reads IdsOk _ (Reads-prepare_delete actor id)) (λ p.
      Preserves-bind IdsOk _ _ (Preserves-soft_delete id actor.id) (λ x.
        Preserves-of_Keeps (λ db. db.posts) HasDistinctIds _
          (Keeps-posts-finish_delete actor id p)))

pub reject-IdsOk : (actor : AuthUser) (id : ℕ) → Preserves IdsOk (reject_post actor id)
unfolding reject_post
reject-IdsOk actor id =
    Preserves-bind IdsOk _ _ (Preserves-of_Reads IdsOk _ (Reads-prepare_review actor id)) (λ r.
      Preserves-bind IdsOk _ _ (Preserves-soft_delete id actor.id)
        (λ x. Preserves-of_Keeps (λ db. db.posts) HasDistinctIds _ (Keeps-posts-release_refs r.0)))

-- An approval preserves what a change of status preserves.
approve-Preserves :
    (P : List Post × List StoredFile → Type 0) (actor : AuthUser) (id : ℕ)
    → Preserves (λ db. P (shelf db)) (Posts.set_status id published)
    → Preserves (λ db. P (shelf db)) (approve_post actor id)
unfolding approve_post
approve-Preserves P actor id h =
    Preserves-bind (λ db. P (shelf db)) _ _
      (Preserves-of_Reads (λ db. P (shelf db)) _ (Reads-prepare_review actor id))
      (λ r.
        Preserves-bind (λ db. P (shelf db)) _ _ h
          (λ x. Preserves-of_Keeps shelf P _ (Keeps-shelf-finish_approve r.0 r.1)))

pub approve-IdsOk : (actor : AuthUser) (id : ℕ) → Preserves IdsOk (approve_post actor id)
approve-IdsOk actor id =
    approve-Preserves (λ s. HasDistinctIds s.0) actor id (Preserves-set_status id published)

status-embeddings :
    (key : Text) (id : ℕ) (s : PostStatus) (posts : List Post)
    → embeddings key (update_rows (Posts.has_id id) (Posts.with_status s) posts)
      ≡ embeddings key posts
unfolding embeddings total update_rows
status-embeddings key id s [] = refl
status-embeddings key id s (p ∷ posts) = ground (arith, status-embeddings key id s posts)

-- A file's count does not depend on whether the posts are published.
Preserves-refs-set_status :
    (id : ℕ) (s : PostStatus) → Preserves (λ db. RefsOk db.posts db.files) (Posts.set_status id s)
unfolding Posts.set_status
Preserves-refs-set_status id s = Preserves-step _ _ (λ env n d a d' e h.
    subst (λ x. RefsOk x.posts x.files) (written_by_status id d d' (Posts.row id d) s a e)
      (record {
        counted = λ key f found. h.counted key f found ∙ sym (status-embeddings key id s d.posts);
      }))

pub approve-RefsOk :
    (actor : AuthUser) (id : ℕ) → Preserves (λ db. RefsOk db.posts db.files) (approve_post actor id)
approve-RefsOk actor id =
    approve-Preserves (λ s. RefsOk s.0 s.1) actor id (Preserves-refs-set_status id published)
