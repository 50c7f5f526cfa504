-- ===== src/PostUseCase/Requests/Reachable.antt =====
-- The databases that requests on posts lead to, and what holds in all of them.
use ferum_board.Prelude.{ℕ, ◌≡◌, sym, ap, subst, inl, inr, arith, true, ◌∷◌}
use ferum_board.Domain.Error.{ok}
use ferum_board.Domain.AuthUser.{AuthUser}
use ferum_board.Domain.Forum.{Post}
use ferum_board.Store.{Db, Env}
use ferum_board.Exec.{World, Exec, step, pure, ◌>>◌}
use ferum_board.Exec.Runs.{Quiet, bind-ok, Reads-ok, outcome}
use ferum_board.Exec.Keeps.{after, Keeps-pure}
use ferum_board.Repo.Posts
use ferum_board.PostUseCase.{CreatePostCmd, create, prepare_create}
use ferum_board.PostUseCase.Change.{edit}
use ferum_board.PostUseCase.Atomicity.{Reads-prepare_create}
use ferum_board.PostUseCase.Atomicity.Operations.{create_atomic}
use ferum_board.PostUseCase.References.{RefsOk, IsNewId, HasDistinctIds}
use ferum_board.PostUseCase.References.Operations.{delete-RefsOk}
use ferum_board.PostUseCase.References.Texts.{create_row-ok, Keeps-posts-finish_create}
use ferum_board.PostUseCase.References.Outcomes.{create-RefsOk, edit-RefsOk, reject-RefsOk}
use ferum_board.PostUseCase.Requests.{
  Request, create_request, edit_request, delete_request, approve_request, reject_request, serve,
}
use ferum_board.PostUseCase.Requests.Identifiers.{
  IdsOk, edit-IdsOk, delete-IdsOk, approve-IdsOk, reject-IdsOk, approve-RefsOk,
}

-- The identifiers that a request would generate are new: `Uuid::new_v4`.
abbrev pub Fresh : Env → Db → Type 0
Fresh env db = (n : ℕ) → IsNewId (env.fresh n) db.posts

create_row-id :
    (env : Env) (w : World) {v : World} {p : Post} (cmd : Posts.NewPost)
    → Posts.create cmd env w ≡ (ok p, v)
    → env.fresh w.calls ≡ p.id
unfolding Posts.create step Posts.inserted
create_row-id env w cmd h = ground (arith, h)

create-IdsOk :
    (env : Env) (w : World) (actor : AuthUser) (cmd : CreatePostCmd)
    → Fresh env w.db
    → IdsOk w.db
    → IdsOk (create actor cmd env w).1.db
unfolding create
create-IdsOk env w actor cmd fresh ids = elim (outcome (create actor cmd) env w) [
  | inr (e, h) ↦ subst IdsOk (sym (create_atomic env w actor e cmd h)) ids
  | inl (p, h) ↦
      let ((t, row), u, h1, k1) = bind-ok env (prepare_create actor cmd) _ w h in
      let (post, u', h2, k2) = bind-ok env (Posts.create row) _ u k1 in
      let same = ap (λ db. db.posts) (sym (Reads-ok env w _ (Reads-prepare_create actor cmd) h1)) in
      let (posts, files, live) = create_row-ok env u row h2 in
      let end = sym ((Keeps-posts-finish_create actor t post).same env u') in
      subst HasDistinctIds (ap (λ r. r.1.db.posts) k2) (
        subst HasDistinctIds end (
          subst HasDistinctIds (sym posts) (
            subst (λ ps. HasDistinctIds (post ∷ ps)) same
              (
                subst (λ i. IsNewId i w.db.posts) (create_row-id env u row h2) (fresh u.calls),
                ids,
              ))))
]

-- Identifiers are distinct, and each file counts the undeleted posts that embed it.
pub record IsSound (db : Db) : Type 0 where
  pub ids : IdsOk db
  pub refs : RefsOk db.posts db.files

-- A request that is served while no call fails, with storage configured and new identifiers.
pub data Step : Db → Db → Type 0 where
  served :
      (env : Env) (w : World) (actor : AuthUser) (r : Request)
      → Quiet env
      → env.has_storage ≡ true
      → Fresh env w.db
      → Step w.db (serve actor r env w).1.db

pub data Reachable (a : Db) : Db → Type 0 where
  start : Reachable a a
  next : {b c : Db} → Reachable a b → Step b c → Reachable a c

answer_dropped :
    {A : Type 0} (m : Exec A) (env : Env) (w : World) → ((m >> pure tt) env w).1.db ≡ (m env w).1.db
answer_dropped m env w = after (λ db. db) m (λ x. pure tt) env w (λ x. Keeps-pure (λ db. db) tt)

served-IsSound :
    (env : Env) (w : World) (actor : AuthUser) (r : Request)
    → Quiet env
    → env.has_storage ≡ true
    → Fresh env w.db
    → IsSound w.db
    → IsSound (serve actor r env w).1.db
unfolding serve
served-IsSound env w actor (create_request cmd) q has fresh s =
    subst IsSound (sym (answer_dropped (create actor cmd) env w)) (record {
      ids = create-IdsOk env w actor cmd fresh s.ids;
      refs = create-RefsOk env q has w actor cmd s.refs;
    })
served-IsSound env w actor (edit_request id md) q has fresh s =
    subst IsSound (sym (answer_dropped (edit actor id md) env w)) (record {
      ids = (edit-IdsOk actor id md).holds env w s.ids;
      refs = edit-RefsOk env q has w actor id md s.ids s.refs;
    })
served-IsSound env w actor (delete_request id) q has fresh s = record {
  ids = (delete-IdsOk actor id).holds env w s.ids;
  refs = delete-RefsOk env q has w actor id s.ids s.refs;
}
served-IsSound env w actor (approve_request id) q has fresh s = record {
  ids = (approve-IdsOk actor id).holds env w s.ids;
  refs = (approve-RefsOk actor id).holds env w s.refs;
}
served-IsSound env w actor (reject_request id) q has fresh s = record {
  ids = (reject-IdsOk actor id).holds env w s.ids;
  refs = reject-RefsOk env q has w actor id s.ids s.refs;
}

Step-IsSound : (a b : Db) → Step a b → IsSound a → IsSound b
Step-IsSound a b (served env w actor r q has fresh) s = served-IsSound env w actor r q has fresh s

-- In every database that requests on posts lead to from one where identifiers of posts are distinct and
-- each file's count is the number of undeleted posts that embed it, the same holds: whatever the users
-- and the requests, accepted or refused, as long as no call fails, storage is configured and generated
-- identifiers are new.
pub reachable-IsSound : (a b : Db) → Reachable a b → IsSound a → IsSound b
reachable-IsSound a b start s = s
reachable-IsSound a c (next r t) s = Step-IsSound _ c t (reachable-IsSound a _ r s)
