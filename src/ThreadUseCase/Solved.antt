-- ===== src/ThreadUseCase/Solved.antt =====
-- Marking the same answer again changes nothing.
use ferum_board.Prelude.{
  ℕ, ◌≡◌, sym, ◌∙◌, ap, inl, inr, Bool, true, false, Bool-cases, ◌&&◌, some, arith, ==-refl,
  if◌then◌else◌, find_row,
}
use ferum_board.Domain.Error.{Result, ok}
use ferum_board.Domain.AuthUser.{AuthUser}
use ferum_board.Domain.Forum.{Post, Thread}
use ferum_board.Store.{Env}
use ferum_board.Exec.{World, Exec, lift, refuse_if, ask, pure, before_hook}
use ferum_board.Exec.Rules.{Reads-before_hook}
use ferum_board.Exec.Runs.{bind-ok, pure-ok, Reads-ok, outcome, bind-run, bind-stop}
use ferum_board.Exec.Keeps.{Keeps, keeps_rules, Keeps-publish, Keeps-write}
use ferum_board.Repo.Threads
use ferum_board.Repo.Threads.{UpdateThread, patched, no_change}
use ferum_board.Repo.Users
use ferum_board.PostUseCase.{some_post}
use ferum_board.ThreadUseCase.{find_live_thread}
use ferum_board.ThreadUseCase.Atomicity.{Reads-prepare_mark_solved}
use ferum_board.ThreadUseCase.Moderation.{
  prepare_mark_solved, finish_mark_solved, mark_answer, mark_solved, is_some_id,
}
use ferum_board.ThreadUseCase.Closed.{row-update, update-ok, find_live_thread-ok, patched-id}

-- The thread has the answer already: the test of the source.
abbrev solved_by : ℕ → Thread → Bool
solved_by answer t = t.is_solved && is_some_id t.best_answer_id answer

prepare-ok :
    (env : Env) (w : World) {v : World} {r : Thread × Post} (actor : AuthUser) (id answer : ℕ)
    → prepare_mark_solved actor id answer env w ≡ (ok r, v)
    → Threads.row id w.db ≡ some r.0
unfolding prepare_mark_solved
prepare-ok env w actor id answer h =
    let (t, u1, h1, k1) = bind-ok env (find_live_thread id) _ w h in
    let (now, u2, h2, k2) = bind-ok env (ask (λ e. e.now)) _ u1 k1 in
    let (x, u3, h3, k3) = bind-ok env (lift _) _ u2 k2 in
    let (y, u4, h4, k4) = bind-ok env (lift _) _ u3 k3 in
    let (p, u5, h5, k5) = bind-ok env (some_post answer) _ u4 k4 in
    let (z, u6, h6, k6) = bind-ok env (refuse_if _ _) _ u5 k5 in
    (find_live_thread-ok env w id h1).0 ∙ ap (λ r. some r.0) (pure-ok env u6 (t, p) k6).0

-- A thread that has the answer is left alone, whoever marks it.
marked_already :
    (env : Env) (w : World) (actor : AuthUser) (id answer : ℕ) (t : Thread)
    → Threads.row id w.db ≡ some t
    → solved_by answer t ≡ true
    → (mark_solved actor id answer env w).1.db ≡ w.db
unfolding mark_solved pure
marked_already env w actor id answer t found marked =
    elim (outcome (prepare_mark_solved actor id answer) env w) [
      | inl ((t', p), h) ↦
          let same = Reads-ok env w _ (Reads-prepare_mark_solved actor id answer) h in
          let e : t' ≡ t = ground (arith, found, prepare-ok env w actor id answer h) in
          let b = ap (solved_by answer) e ∙ marked in
          ap (λ x. x.1.db) (bind-run env w _ _ h) ∙ simp b same
      | inr (e, h) ↦
          ap (λ x. x.1.db)
            (bind-stop env w _ _ (ap (λ r. (r, (prepare_mark_solved actor id answer env w).1)) h))
          ∙ (Reads-prepare_mark_solved actor id answer).same env w
    ]

Keeps-threads-finish_mark_solved :
    (actor : AuthUser) (id answer : ℕ) (t : Thread) (p : Post) (r : Thread)
    → Keeps (λ db. db.threads) (finish_mark_solved actor id answer t p r)
unfolding finish_mark_solved Users.increment_trust_score
Keeps-threads-finish_mark_solved actor id answer t p r =
    search (keeps_rules, Keeps-publish, Keeps-write) depth 20

abbrev solution : ℕ → UpdateThread
solution answer = record no_change { is_solved = some true; best_answer_id = some (some answer) }

solution-solved_by :
    (answer : ℕ) (t : Thread) → solved_by answer (patched (solution answer) t) ≡ true
unfolding patched
solution-solved_by answer t = ==-refl answer

-- A thread that is marked is found with the answer.
mark_answer-ok :
    (env : Env) (u : World) {v : World} {r : Thread} (actor : AuthUser) (id answer : ℕ) (t : Thread)
    (p : Post)
    → Threads.row id u.db ≡ some t
    → mark_answer actor id answer t p env u ≡ (ok r, v)
    → Threads.row id v.db ≡ some (patched (solution answer) t)
unfolding mark_answer
mark_answer-ok env u actor id answer t p found h =
    let (x, u1, h1, k1) = bind-ok env (before_hook _) _ u h in
    let (result, u2, h2, k2) = bind-ok env (Threads.update id _) _ u1 k1 in
    let there = ap (Threads.row id) (Reads-ok env u _ (Reads-before_hook _) h1) ∙ found in
    let written = update-ok env u1 id (solution answer) t there h2 in
    let kept =
      ap (λ y. y.1.db.threads) (sym k2)
      ∙ (Keeps-threads-finish_mark_solved actor id answer t p result).same env u2 in
    ap (find_row (Threads.has_id id)) (kept ∙ ap (λ db. db.threads) written)
    ∙ row-update id (patched (solution answer)) u1.db.threads t (patched-id _) there

-- The branch that a run has taken.
taken_true :
    {A : Type 0} (b : Bool) (m n : Exec A) (env : Env) (u : World) {x : Result A × World}
    → b ≡ true
    → (if b then m else n) env u ≡ x
    → m env u ≡ x
taken_true b m n env u e h = ap (λ c. (if c then m else n) env u) (sym e) ∙ h

taken_false :
    {A : Type 0} (b : Bool) (m n : Exec A) (env : Env) (u : World) {x : Result A × World}
    → b ≡ false
    → (if b then m else n) env u ≡ x
    → n env u ≡ x
taken_false b m n env u e h = ap (λ c. (if c then m else n) env u) (sym e) ∙ h

-- Once an answer has been marked, and while the row of its thread is the one that this left, marking it
-- again, by whoever and whatever fails, changes nothing: the author is not rewarded twice, and no second
-- event is published.
pub mark_solved-mark_solved :
    (env later : Env) (w v v' : World) (actor again : AuthUser) (id answer : ℕ) (r : Thread)
    → mark_solved actor id answer env w ≡ (ok r, v)
    → Threads.row id v'.db ≡ Threads.row id v.db
    → (mark_solved again id answer later v').1.db ≡ v'.db
unfolding mark_solved
mark_solved-mark_solved env later w v v' actor again id answer r h still =
    let ((t, p), u, h1, k1) = bind-ok env (prepare_mark_solved actor id answer) _ w h in
    let same = Reads-ok env w _ (Reads-prepare_mark_solved actor id answer) h1 in
    let found = ap (Threads.row id) same ∙ prepare-ok env w actor id answer h1 in
    elim (Bool-cases (solved_by answer t)) [
      | inl marked ↦
          let kept = (pure-ok env u t (taken_true _ _ _ env u marked k1)).1 in
          marked_already later v' again id answer t (still ∙ ap (Threads.row id) kept ∙ found)
            marked
      | inr fresh ↦
          marked_already later v' again id answer (patched (solution answer) t)
            (still
              ∙ mark_answer-ok env u actor id answer t p found (taken_false _ _ _ env u fresh k1))
            (solution-solved_by answer t)
    ]
