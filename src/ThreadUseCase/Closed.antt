-- ===== src/ThreadUseCase/Closed.antt =====
-- A thread that is locked or deleted takes no more posts.
use ferum_board.Prelude.{
  ℕ, ◌≡◌, refl, sym, ◌∙◌, ap, Bool, true, none, some, List, [], ◌∷◌, arith, ◌==◌, is_some,
  Bool-cases, inl, inr, find_row, update_rows,
}
use ferum_board.Domain.Error.{ok, err, forbidden, not_found}
use ferum_board.Domain.AuthUser.{AuthUser}
use ferum_board.Domain.Forum.{Thread, locked}
use ferum_board.Domain.Event.{ForumEvent}
use ferum_board.Store.{Env}
use ferum_board.Exec.{World, step, read, lift, refuse_if, ask, pure, publish, ◌>>=◌}
use ferum_board.Exec.Runs.{Quiet, bind-ok, lift-ok, Reads-ok}
use ferum_board.Exec.Rules.{Reads-ask}
use ferum_board.Exec.Keeps.{Keeps, keeps_rules, Keeps-publish, Keeps-pure, after}
use ferum_board.Repo.Threads
use ferum_board.Repo.Threads.{UpdateThread, patched, no_change}
use ferum_board.PostUseCase.{CreatePostCmd, create, prepare_create}
use ferum_board.ThreadUseCase.{find_live_thread, soft_delete, allow_delete, deletion}
use ferum_board.ThreadUseCase.Atomicity.{Reads-find_live_thread, Reads-allow_delete}
use ferum_board.ThreadUseCase.Moderation.{lock, announce_lock}

-- A thread is found with its changes.
pub row-update :
    (id : ℕ) (f : Thread → Thread) (ts : List Thread) (old : Thread)
    → ((t : Thread) → (f t).id ≡ t.id)
    → find_row (Threads.has_id id) ts ≡ some old
    → find_row (Threads.has_id id) (update_rows (Threads.has_id id) f ts) ≡ some (f old)
unfolding find_row update_rows
row-update id f [] old keeps h = cc
row-update id f (t ∷ ts) old keeps h = elim (Bool-cases (t.id == id)) [
  | inl same ↦
      let e : t ≡ old = ground (arith, same, h) in simp (same, keeps t) (ap (λ x. some (f x)) e)
  | inr other ↦
      let rest : find_row (Threads.has_id id) ts ≡ some old = ground (arith, other, h) in
      simp other (row-update id f ts old keeps rest)
]

pub update-ok :
    (env : Env) (w : World) {v : World} {t : Thread} (id : ℕ) (patch : UpdateThread) (old : Thread)
    → Threads.row id w.db ≡ some old
    → Threads.update id patch env w ≡ (ok t, v)
    → v.db ≡ Threads.update_row id (patched patch) w.db
unfolding Threads.update step
update-ok env w id patch old found h = ground arith

pub find_live_thread-ok :
    (env : Env) (w : World) {v : World} {t : Thread} (id : ℕ)
    → find_live_thread id env w ≡ (ok t, v)
    → (Threads.row id w.db ≡ some t) × (t.deleted_at ≡ none)
unfolding find_live_thread Threads.find_by_id read step lift refuse_if pure ◌>>=◌
find_live_thread-ok env w id h = (ground arith, ground arith)

refused_locked :
    (env : Env) (u : World) (actor : AuthUser) (cmd : CreatePostCmd) (t : Thread)
    → Quiet env
    → Threads.row cmd.thread_id u.db ≡ some t
    → t.deleted_at ≡ none
    → t.status ≡ locked
    → (create actor cmd env u).0 ≡ err (forbidden "thread_locked")
unfolding create prepare_create Threads.find_by_id read step lift refuse_if ◌>>=◌
refused_locked env u actor cmd t q found live status = simp (q u.calls, found, live, status) refl

refused_deleted :
    (env : Env) (u : World) (actor : AuthUser) (cmd : CreatePostCmd) (t : Thread)
    → Quiet env
    → Threads.row cmd.thread_id u.db ≡ some t
    → is_some t.deleted_at ≡ true
    → (create actor cmd env u).0 ≡ err not_found
unfolding create prepare_create Threads.find_by_id read step lift refuse_if ◌>>=◌
refused_deleted env u actor cmd t q found gone = simp (q u.calls, found, gone) refl

pub patched-id : (patch : UpdateThread) (t : Thread) → (patched patch t).id ≡ t.id
unfolding patched
patched-id patch t = refl

Keeps-threads-publish_lock :
    (actor : AuthUser) (id : ℕ) (on : Bool) → Keeps (λ db. db.threads) (announce_lock actor id on)
Keeps-threads-publish_lock actor id on = search (keeps_rules, Keeps-publish)

-- What `lock` leaves in the table of threads.
lock-ok :
    (env : Env) (w : World) {v : World} {t : Thread} (actor : AuthUser) (id : ℕ)
    → lock actor id true env w ≡ (ok t, v)
    → (old : Thread) × (old.deleted_at ≡ none)
      × (Threads.row id v.db ≡ some (patched (record no_change { status = some locked }) old))
unfolding lock
lock-ok env w {v} actor id h =
    let (old, u1, h1, k1) = bind-ok env (find_live_thread id) _ w h in
    let (now, u2, h2, k2) = bind-ok env (ask (λ e. e.now)) _ u1 k1 in
    let (x, u3, h3, k3) = bind-ok env (lift _) _ u2 k2 in
    let (result, u4, h4, k4) = bind-ok env (Threads.update id _) _ u3 k3 in
    let (found, live) = find_live_thread-ok env w id h1 in
    let start =
      (lift-ok env u2 _ h3).1
      ∙ Reads-ok env u1 _ (Reads-ask (λ e. e.now)) h2
      ∙ Reads-ok env w _ (Reads-find_live_thread id) h1 in
    let there = ap (Threads.row id) start ∙ found in
    let written = update-ok env u3 id _ old there h4 in
    let kept =
      ap (λ r. r.1.db.threads) (sym k4)
      ∙ after (λ db. db.threads) (announce_lock actor id true) _ env u4 (λ _. Keeps-pure _ _)
      ∙ (Keeps-threads-publish_lock actor id true).same env u4 in
    (
      old,
      live,
      ap (find_row (Threads.has_id id)) (kept ∙ ap (λ db. db.threads) written)
          ∙ row-update id (patched _) u3.db.threads old (patched-id _) there,
    )

-- Once a thread is locked, whoever posts to it next is told that it is locked, where no call fails in
-- that request, whatever the poster's permissions.
pub lock-create :
    (env later : Env) (w v : World) (t : Thread) (actor poster : AuthUser) (id : ℕ)
    (cmd : CreatePostCmd)
    → Quiet later
    → cmd.thread_id ≡ id
    → lock actor id true env w ≡ (ok t, v)
    → (create poster cmd later v).0 ≡ err (forbidden "thread_locked")
lock-create env later w v t actor poster id cmd q at h =
    let (old, live, found) = lock-ok env w actor id h in
    refused_locked later v poster cmd (patched (record no_change { status = some locked }) old) q
      (ap (λ i. Threads.row i v.db) at ∙ found) (unfold patched in live) (unfold patched in refl)

published_threads :
    (env : Env) (u : World) (e : ForumEvent) → (publish e env u).1.db.threads ≡ u.db.threads
unfolding publish
published_threads env u e = refl

-- What `soft_delete` leaves in the table of threads.
soft_delete-ok :
    (env : Env) (w : World) {v : World} {x : Unit {0}} (actor : AuthUser) (id : ℕ)
    → soft_delete actor id env w ≡ (ok x, v)
    → (old : Thread) × (now : ℕ) × (Threads.row id v.db ≡ some (patched (deletion actor now) old))
unfolding soft_delete
soft_delete-ok env w actor id h =
    let (old, u1, h1, k1) = bind-ok env (find_live_thread id) _ w h in
    let (now, u2, h2, k2) = bind-ok env (allow_delete actor old) _ u1 k1 in
    let (result, u3, h3, k3) = bind-ok env (Threads.update id _) _ u2 k2 in
    let (found, live) = find_live_thread-ok env w id h1 in
    let start =
      Reads-ok env u1 _ (Reads-allow_delete actor old) h2
      ∙ Reads-ok env w _ (Reads-find_live_thread id) h1 in
    let there = ap (Threads.row id) start ∙ found in
    let written = update-ok env u2 id _ old there h3 in
    let kept = ap (λ r. r.1.db.threads) (sym k3) ∙ published_threads env u3 _ in
    (
      old,
      now,
      ap (find_row (Threads.has_id id)) (kept ∙ ap (λ db. db.threads) written)
          ∙ row-update id (patched _) u2.db.threads old (patched-id _) there,
    )

-- Once a thread is deleted, whoever posts to it next is told that it does not exist, where no call fails
-- in that request, whatever the poster's permissions.
pub soft_delete-create :
    (env later : Env) (w v : World) (actor poster : AuthUser) (id : ℕ) (cmd : CreatePostCmd)
    → Quiet later
    → cmd.thread_id ≡ id
    → soft_delete actor id env w ≡ (ok tt, v)
    → (create poster cmd later v).0 ≡ err not_found
soft_delete-create env later w v actor poster id cmd q at h =
    let (old, now, found) = soft_delete-ok env w actor id h in
    refused_deleted later v poster cmd (patched (deletion actor now) old) q
      (ap (λ i. Threads.row i v.db) at ∙ found) (unfold patched in refl)
