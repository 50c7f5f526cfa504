-- ===== src/ThreadUseCase/TagLimit.antt =====
-- A thread has at most five tags after its tags are replaced.
use ferum_board.Prelude.{
  ℕ, ◌+◌, ◌≤◌, ◌≡◌, refl, sym, subst, not, Option, none, some, List, [], ◌∷◌, ◌++◌, ◌==◌, Text,
  keep, take, length, arith, zero, suc,
}
use ferum_board.Domain.Error.{ok}
use ferum_board.Domain.Perm
use ferum_board.Domain.AuthUser.{AuthUser, has_perm}
use ferum_board.Domain.Desk.{Tag}
use ferum_board.Store.{Db, Env}
use ferum_board.Exec.{World, pure, refuse_if}
use ferum_board.Exec.Gives.{Gives, Gives-pure, Gives-if, Gives-bind, Gives-any}
use ferum_board.Exec.Runs.{bind-ok, write-ok, pure-ok, step-ok}
use ferum_board.Repo.Tags
use ferum_board.Text.{trim, is_empty}
use ferum_board.ThreadUseCase.Creation.{
  SlugPorts, make_tag, fresh_id, or_make, resolve_tag, resolve_tags, is_author_within_window,
  prepare_edit, update_tags, max_tags_per_thread,
}

-- The rows of a thread.
abbrev pub of_thread : ℕ → List (ℕ × ℕ) → List (ℕ × ℕ)
of_thread id rows = keep (λ r. r.0 == id) rows

length-with_rows :
    (id : ℕ) (ids : List ℕ) (rows : List (ℕ × ℕ))
    → length (of_thread id (Tags.with_rows id ids rows)) ≤ length (of_thread id rows) + length ids
unfolding Tags.with_rows
length-with_rows id [] rows = omega arith
length-with_rows id (t ∷ ts) rows =
    ground (arith, length-with_rows id ts rows, length-with_rows id ts ((id, t) ∷ rows))

cleared :
    (id : ℕ) (rows : List (ℕ × ℕ)) → length (of_thread id (keep (λ r. not (r.0 == id)) rows)) ≡ 0
cleared id [] = refl
cleared id (r ∷ rows) = ground (arith, cleared id rows)

length-take : (n : ℕ) (xs : List Text) → length (take n xs) ≤ n
length-take zero xs = omega arith
length-take (suc n) [] = omega arith
length-take (suc n) (x ∷ xs) = omega (arith, length-take n xs)

module _ (ports : SlugPorts) (actor : AuthUser) where
  abbrev AtMost : ℕ → List ℕ → Type 0
  AtMost n ids = length ids ≤ n

  Gives-or_make :
      (name : Text) (found : Option Tag)
      → Gives (AtMost 1) (or_make ports actor (pure []) name found)
  unfolding make_tag
  Gives-or_make name (some tag) = Gives-pure (AtMost 1) (tag.id ∷ []) (omega arith)
  Gives-or_make name none =
      Gives-if (AtMost 1) (has_perm actor Perm.tag_create) _ (pure [])
        (Gives-bind (AtMost 1) (λ _. Unit) fresh_id _ (Gives-any fresh_id)
          (λ id _.
            Gives-bind (AtMost 1) (λ _. Unit) (Tags.create _) _ (Gives-any _)
              (λ tag _. Gives-pure (AtMost 1) (tag.id ∷ []) (omega arith))))
        (Gives-pure (AtMost 1) [] (omega arith))

  Gives-resolve_tag : (raw : Text) → Gives (AtMost 1) (resolve_tag ports actor (pure []) raw)
  unfolding resolve_tag
  Gives-resolve_tag raw =
      Gives-if (AtMost 1) (is_empty (trim raw)) (pure []) _ (Gives-pure (AtMost 1) [] (omega arith))
        (Gives-bind (AtMost 1) (λ _. Unit) (Tags.find_by_slug (ports.slugify (trim raw))) _
          (Gives-any _) (λ found _. Gives-or_make (trim raw) found))

  append_most : (m n : ℕ) (xs ys : List ℕ) → AtMost m xs → AtMost n ys → AtMost (m + n) (xs ++ ys)
  append_most m n [] ys p q = omega arith
  append_most m n (x ∷ xs) ys p q = omega (arith, append_most (length xs) n xs ys (omega arith) q)

  Gives-resolve_tags :
      (names : List Text) → Gives (AtMost (length names)) (resolve_tags ports actor (pure []) names)
  unfolding resolve_tags
  Gives-resolve_tags [] = Gives-pure (AtMost 0) [] (omega arith)
  Gives-resolve_tags (raw ∷ names) =
      Gives-bind _ (AtMost 1) (resolve_tag ports actor (pure []) raw) _ (Gives-resolve_tag raw)
        (λ t p.
          Gives-bind _ (AtMost (length names)) (resolve_tags ports actor (pure []) names) _
            (Gives-resolve_tags names)
            (λ ts q.
              Gives-pure (AtMost (suc (length names))) (t ++ ts)
                (omega (arith, append_most 1 (length names) t ts p q))))

assigned :
    (env : Env) (u : World) {v : World} {x : Unit {0}} (id : ℕ) (ids : List ℕ)
    → Tags.assign_to_thread id ids env u ≡ (ok x, v)
    → length (of_thread id u.db.labels.thread_tags) ≡ 0
    → length (of_thread id v.db.labels.thread_tags) ≤ length ids
unfolding Tags.assign_to_thread
assigned env u {v} id [] h e = rw (pure-ok env u tt h).1 (omega (arith, e))
assigned env u {v} id (t ∷ ts) h e =
    let k = step-ok env u _ h in
    let rows : v.db.labels.thread_tags ≡ Tags.with_rows id (t ∷ ts) u.db.labels.thread_tags =
      ground (arith, k) in
    rw rows (omega (arith, length-with_rows id (t ∷ ts) u.db.labels.thread_tags, e))

replaced :
    (env : Env) (w : World) {v : World} {x : Unit {0}} (id : ℕ) (ids : List ℕ)
    → Tags.replace_thread_tags id ids env w ≡ (ok x, v)
    → length (of_thread id v.db.labels.thread_tags) ≤ length ids
unfolding Tags.replace_thread_tags Tags.clear_thread
replaced env w id ids h =
    let (a, u, h1, k1) =
      bind-ok env (Tags.clear_thread id) (λ _. Tags.assign_to_thread id ids) w h in
    assigned env u id ids k1 (
      subst (λ (d : Db). length (of_thread id d.labels.thread_tags) ≡ 0) (sym (write-ok env w _ h1))
        (cleared id w.db.labels.thread_tags))

-- After a change of a thread's tags that succeeds, the thread has at most five, however many names the
-- request has and however many tags the thread had.
pub update_tags-at_most_five :
    (ports : SlugPorts) (env : Env) (w v : World) (actor : AuthUser) (id : ℕ) (names : List Text)
    → update_tags ports actor id names env w ≡ (ok tt, v)
    → length (of_thread id v.db.labels.thread_tags) ≤ 5
unfolding update_tags
update_tags-at_most_five ports env w v actor id names h =
    let (t, u1, h1, k1) = bind-ok env (prepare_edit actor id) _ w h in
    let (b, u2, h2, k2) = bind-ok env (is_author_within_window actor t) _ u1 k1 in
    let (x, u3, h3, k3) = bind-ok env (refuse_if _ _) _ u2 k2 in
    let (ids, u4, h4, k4) =
      bind-ok env (resolve_tags ports actor (pure []) (take max_tags_per_thread names)) _ u3 k3 in
    let few =
      (Gives-resolve_tags ports actor (take max_tags_per_thread names)).answer env u3 u4 ids h4 in
    omega (arith, replaced env u4 id ids k4, few, length-take 5 names)
