-- ===== src/ThreadUseCase/ThumbnailRefs.antt =====
-- What setting a thumbnail does to the references of its file.
use ferum_board.Prelude.{
  ℕ, String, ◌≡◌, refl, sym, ◌∙◌, ap, subst, true, Option, some, List, Text, arith, find_row,
  ==-refl, update_rows, length,
}
use ferum_board.Domain.Error.{AppError, Result, ok, err}
use ferum_board.Domain.AuthUser.{AuthUser}
use ferum_board.Store.{Db, Env}
use ferum_board.Exec.{World, pure, fail}
use ferum_board.Exec.Rules.{Reads, reads_rules}
use ferum_board.Exec.Runs.{bind-ok, step-ok, pure-ok, Reads-ok, read-ok}
use ferum_board.Repo.Files
use ferum_board.Repo.Threads
use ferum_board.Storage.{cas_key}
use ferum_board.Text.{codes}
use ferum_board.Text.Laws.{text_eq_refl}
use ferum_board.ThreadUseCase.Atomicity.{Reads-find_live_thread}
use ferum_board.ThreadUseCase.Thumbnails.{
  prepare_set, set_thumbnail, store_key, set_or_take_back, take_back, release_old,
}

-- The key of a thread's thumbnail.
abbrev pub thumbnail_key : ℕ → Db → Option Text
thumbnail_key id db = Threads.key_of (find_row (Threads.thumbnail_of id) db.social.thumbnails)

Reads-prepare_set :
    (actor : AuthUser) (id : ℕ) (bytes : List ℕ) (ct : String)
    → Reads (prepare_set actor id bytes ct)
unfolding prepare_set
Reads-prepare_set actor id bytes ct = search (reads_rules, Reads-find_live_thread) depth 30

-- Taking a reference back never succeeds: it passes the error on.
take_back-err :
    (env : Env) (w : World) {v : World} {x : Unit {0}} (key : Text) (e : AppError)
    → take_back key e env w ≡ (ok x, v)
    → ⊥
unfolding take_back fail
take_back-err env w key e h =
    let (a, u, h1, k1) = bind-ok env _ _ w h in let (b, u2, h2, k2) = bind-ok env _ _ u k1 in cc

set-ok :
    (env : Env) (w : World) {v : World} {x : Unit {0}} (id : ℕ) (key : Text)
    → Threads.set_thumbnail id key env w ≡ (ok x, v)
    → (v.db.files ≡ w.db.files) × (thumbnail_key id v.db ≡ some key)
unfolding Threads.set_thumbnail find_row
set-ok env w id key h =
    let k = step-ok env w _ h in (ground (arith, k), ground (arith, k, ==-refl id))

store_key-ok :
    (env : Env) (w : World) {v : World} {x : Unit {0}} (id : ℕ) (key : Text)
    → store_key id key env w ≡ (ok x, v)
    → (v.db.files ≡ w.db.files) × (thumbnail_key id v.db ≡ some key)
unfolding store_key
store_key-ok env w {v} {x} id key h = of_result (Threads.set_thumbnail id key env w) refl h
  where
    of_result :
        (r : Result (Unit {0}) × World)
        → Threads.set_thumbnail id key env w ≡ r
        → set_or_take_back key r env w ≡ (ok x, v)
        → (v.db.files ≡ w.db.files) × (thumbnail_key id v.db ≡ some key)
    of_result (ok y, u) e k =
        subst (λ (z : World). (z.db.files ≡ w.db.files) × (thumbnail_key id z.db ≡ some key))
          (ap (λ (p : Result (Unit {0}) × World). p.1) k) (set-ok env w id key e)
    of_result (err y, u) e k = absurd (take_back-err env u key y k)

release_old-same :
    (env : Env) (w : World) {v : World} {x : Unit {0}} (key : Text)
    → release_old key (some key) env w ≡ (ok x, v)
    → v.db ≡ w.db
unfolding release_old pure
release_old-same env w key h = ground (arith, h, text_eq_refl key)

upsert-counted :
    (env : Env) (w : World) {v : World} {x : Unit {0}} (key : Text) (ct : String) (size id : ℕ)
    → Files.stored key w.db ≡ true
    → Files.upsert_and_ref key ct size (some id) env w ≡ (ok x, v)
    → v.db ≡ Files.update_row key Files.plus_one w.db
unfolding Files.upsert_and_ref
upsert-counted env w key ct size id old h = let k = step-ok env w _ h in ground (arith, k, old)

-- Setting a thread's thumbnail, where it succeeds, to the stored image that it is already counts one
-- reference more to the file of the image, although the thread refers to it once before and after.
pub set_thumbnail-same :
    (digest : List ℕ → Text) (env : Env) (w v : World) (actor : AuthUser) (id : ℕ) (bytes : List ℕ)
    (ct : String) (url : Text)
    → thumbnail_key id w.db ≡ some (cas_key digest (codes "thumbnails") bytes ct)
    → Files.stored (cas_key digest (codes "thumbnails") bytes ct) w.db ≡ true
    → set_thumbnail digest actor id bytes ct env w ≡ (ok url, v)
    → (v.db.files
        ≡ update_rows
            (Files.has_key (cas_key digest (codes "thumbnails") bytes ct))
            Files.plus_one
            w.db.files)
      × (thumbnail_key id v.db ≡ some (cas_key digest (codes "thumbnails") bytes ct))
unfolding set_thumbnail Threads.find_thumbnail_key
set_thumbnail-same digest env w v actor id bytes ct url same old h =
    let key = cas_key digest (codes "thumbnails") bytes ct in
    let (x1, u1, h1, k1) = bind-ok env (prepare_set actor id bytes ct) _ w h in
    let (x2, u2, h2, k2) =
      bind-ok env (Files.upsert_and_ref key ct (length bytes) (some actor.id)) _ u1 k1 in
    let (o, u3, h3, k3) = bind-ok env (Threads.find_thumbnail_key id) _ u2 k2 in
    let (x4, u4, h4, k4) = bind-ok env (store_key id key) _ u3 k3 in
    let (x5, u5, h5, k5) = bind-ok env (release_old key o) _ u4 k4 in
    let e1 = Reads-ok env w _ (Reads-prepare_set actor id bytes ct) h1 in
    let e2 =
      upsert-counted env u1 key ct (length bytes) actor.id
        (subst (λ d. Files.stored key d ≡ true) (sym e1) old) h2 in
    let (found, e3) = read-ok env u2 (λ db. ok (thumbnail_key id db)) h3 in
    let o_key : o ≡ some key =
      sym (value found) ∙ ap (thumbnail_key id) e2 ∙ ap (thumbnail_key id) e1 ∙ same in
    let (files, thumb) = store_key-ok env u3 id key h4 in
    let e5 =
      release_old-same env u4 key (subst (λ x. release_old key x env u4 ≡ (ok x5, u5)) o_key h5) in
    let e6 = (pure-ok env u5 _ k5).1 in
    (
      ap (λ (d : Db). d.files) (e6 ∙ e5)
          ∙ files
          ∙ ap (λ (d : Db). d.files) (e3 ∙ e2)
          ∙ ap (λ (d : Db). update_rows (Files.has_key key) Files.plus_one d.files) e1,
      ap (thumbnail_key id) (e6 ∙ e5) ∙ thumb,
    )
  where
    value : {a b : Option Text} → ok a ≡ ok b → a ≡ b
    value e = cc
