-- ===== src/Moderation/Scope.antt =====
-- The category of the target of a report.
use ferum_board.Prelude.{ℕ, ◌≡◌, sym, ap, ◌∙◌, Option, none, some}
use ferum_board.Domain.Error.{ok}
use ferum_board.Domain.Forum.{Post}
use ferum_board.Domain.Review.{Report}
use ferum_board.Store.{Db, Env}
use ferum_board.Exec.{World, pure}
use ferum_board.Exec.Runs.{bind-ok, read-ok, pure-ok}
use ferum_board.Exec.Rules.{Reads, Reads-read, Reads-pure, Reads-bind}
use ferum_board.Repo.Posts
use ferum_board.Repo.Threads
use ferum_board.Moderation.{
  category_of, thread_category, post_category, target_category, report_category_id,
}

-- The category of a target, by the tables.
abbrev thread_scope : Db → ℕ → Option ℕ
thread_scope db id = category_of (Threads.row id db)

abbrev post_scope : Db → Option Post → Option ℕ
post_scope db none = none
post_scope db (some p) = thread_scope db p.thread_id

abbrev pub scope : Db → Option ℕ → Option ℕ → Option ℕ
scope db (some thread_id) post_id = thread_scope db thread_id
scope db none (some post_id) = post_scope db (Posts.row post_id db)
scope db none none = none

pub same_value : {A : Type 0} {x y : A} → ok x ≡ ok y → x ≡ y
same_value h = cc

thread_category-ok :
    (env : Env) (w : World) {v : World} {o : Option ℕ} (id : ℕ)
    → thread_category id env w ≡ (ok o, v)
    → (o ≡ thread_scope w.db id) × (v.db ≡ w.db)
unfolding Threads.find_by_id
thread_category-ok env w id h =
    let (t, u, h1, k1) = bind-ok env (Threads.find_by_id id) (λ t. pure (category_of t)) w h in
    let (found, same) = read-ok env w (λ db. ok (Threads.row id db)) h1 in
    let (answer, end) = pure-ok env u (category_of t) k1 in
    (sym answer ∙ ap category_of (sym (same_value found)), end ∙ same)

post_category-ok :
    (env : Env) (w : World) {v : World} {o : Option ℕ} (p : Option Post)
    → post_category p env w ≡ (ok o, v)
    → (o ≡ post_scope w.db p) × (v.db ≡ w.db)
post_category-ok env w none h = let (answer, end) = pure-ok env w none h in (sym answer, end)
post_category-ok env w (some p) h = thread_category-ok env w p.thread_id h

-- The category that the code finds is that of the tables.
pub target_category-ok :
    (env : Env) (w : World) {v : World} {o : Option ℕ} (thread_id post_id : Option ℕ)
    → target_category thread_id post_id env w ≡ (ok o, v)
    → (o ≡ scope w.db thread_id post_id) × (v.db ≡ w.db)
unfolding Posts.find_by_id
target_category-ok env w (some t) post_id h = thread_category-ok env w t h
target_category-ok env w none (some id) h =
    let (p, u, h1, k1) = bind-ok env (Posts.find_by_id id) post_category w h in
    let (found, same) = read-ok env w (λ db. ok (Posts.row id db)) h1 in
    let (answer, end) = post_category-ok env u p k1 in
    (
      answer ∙ ap (λ (d : Db). post_scope d p) same ∙ ap (post_scope w.db) (sym (same_value found)),
      end ∙ same,
    )
target_category-ok env w none none h = let (answer, end) = pure-ok env w none h in (sym answer, end)

pub report_category_id-ok :
    (env : Env) (w : World) {v : World} {o : Option ℕ} (r : Report)
    → report_category_id r env w ≡ (ok o, v)
    → (o ≡ scope w.db r.thread_id r.post_id) × (v.db ≡ w.db)
unfolding report_category_id
report_category_id-ok env w r h = target_category-ok env w r.thread_id r.post_id h

Reads-thread_category : (id : ℕ) → Reads (thread_category id)
unfolding Threads.find_by_id
Reads-thread_category id =
    Reads-bind (Threads.find_by_id id) (λ t. pure (category_of t)) (Reads-read _)
      (λ t. Reads-pure (category_of t))

Reads-post_category : (p : Option Post) → Reads (post_category p)
Reads-post_category none = Reads-pure none
Reads-post_category (some p) = Reads-thread_category p.thread_id

pub Reads-target : (t p : Option ℕ) → Reads (target_category t p)
unfolding Posts.find_by_id
Reads-target (some t) p = Reads-thread_category t
Reads-target none (some p) =
    Reads-bind (Posts.find_by_id p) post_category (Reads-read _) (λ o. Reads-post_category o)
Reads-target none none = Reads-pure none
