-- ===== src/AdminUseCase/Nested.antt =====
-- The two levels of categories, which every request keeps that leaves the parents alone.
use ferum_board.Prelude.{
  ℕ, ◌≡◌, refl, sym, ◌∙◌, ap, subst, Bool, true, false, not, Option, none, some, List, [], ◌∷◌,
  arith, any, is_some, inl, inr, ◌||◌, keep, find_row, update_rows,
}
use ferum_board.Domain.Error.{ok, or_not_found}
use ferum_board.Domain.AuthUser.{AuthUser}
use ferum_board.Domain.Forum.{Category}
use ferum_board.Store.{Db, Env}
use ferum_board.Exec.{World, lift, refuse_if}
use ferum_board.Exec.Keeps.{Keeps-bind, Keeps-pure}
use ferum_board.Exec.Runs.{
  refuse_if-ok, bind-ok, step-ok, lift-ok, read-ok, Reads-ok, outcome, dropped, after-ok,
}
use ferum_board.Permission.{can_manage_categories}
use ferum_board.Repo.Categories
use ferum_board.Repo.Categories.{
  has_id, is_child, UpdateCategory, NewCategory, patched, inserted, known_parent,
}
use ferum_board.Repo.Audit
use ferum_board.AdminUseCase.{
  some_category, check_parent, prepare_create, prepare_update, prepare_delete, CreateCategoryCmd,
  UpdateCategoryCmd, new_category, category_patch, create_category, update_category,
  delete_category, CategoryRequest, create_request, update_request, delete_request, serve,
  is_reserved_slug,
}
use ferum_board.AdminUseCase.Tree.{
  placed, is_forest, insert-is_forest, delete-is_forest, update-is_forest,
}
use ferum_board.AdminUseCase.Checks.{
  cats, Reads-some_category, Reads-check_parent, Reads-prepare_create, Reads-prepare_update,
  Reads-prepare_delete, Keeps-log, serve_category_atomic,
}

module _ (env : Env) (w : World) {v : World} where
  some_category-ok :
      (id : ℕ) {c : Category}
      → some_category id env w ≡ (ok c, v)
      → find_row (has_id id) w.db.categories ≡ some c
  unfolding some_category Categories.find_by_id
  some_category-ok id h =
      let (o, u, h1, k1) =
        bind-ok env (Categories.find_by_id id) (λ o. lift (or_not_found o)) w h in
      let (e, _) = read-ok env w (λ db. ok (find_row (has_id id) db.categories)) h1 in
      found _ (e ∙ ap ok refl) (lift-ok env u (or_not_found o) k1).0
    where
      found :
          {o : Option Category} {c : Category} (x : Option Category)
          → ok x ≡ ok o
          → or_not_found o ≡ ok c
          → x ≡ some c
      found {o} x e k = ground (arith, e, k)

check_parent-ok :
    (env : Env) (w : World) {v : World} (p : Option ℕ) {x : Unit {0}}
    → check_parent p env w ≡ (ok x, v)
    → placed w.db.categories p ≡ true
unfolding check_parent
check_parent-ok env w none h = refl
check_parent-ok env w (some p) h =
    let (c, u, h1, k1) = bind-ok env (some_category p) _ w h in
    rw (some_category-ok env w p h1) (top c.parent_id (refuse_if-ok env u _ _ k1))
  where
    top : (o : Option ℕ) → is_some o ≡ false → (elim o [ none ↦ true | some _ ↦ false ]) ≡ true
    top none h = refl
    top (some _) h = cc

prepare_create-ok :
    (env : Env) (w : World) {v : World} (actor : AuthUser) (cmd : CreateCategoryCmd) {x : Unit {0}}
    → prepare_create actor cmd env w ≡ (ok x, v)
    → placed v.db.categories cmd.parent_id ≡ true
unfolding prepare_create
prepare_create-ok env w actor cmd h =
    let (x1, u1, h1, k1) = bind-ok env (lift (can_manage_categories actor)) _ w h in
    let (x2, u2, h2, k2) = bind-ok env (refuse_if (is_reserved_slug cmd.slug) _) _ u1 k1 in
    let (o, u3, h3, k3) = bind-ok env (Categories.find_by_slug cmd.slug) _ u2 k2 in
    let (x4, u4, h4, k4) = bind-ok env (refuse_if (is_some o) _) _ u3 k3 in
    subst (λ d. placed d.categories cmd.parent_id ≡ true)
      (sym (Reads-ok env u4 (check_parent cmd.parent_id) (Reads-check_parent cmd.parent_id) k4))
      (check_parent-ok env u4 cmd.parent_id k4)

any-or :
    (cs : List Category) (p q : Category → Bool)
    → any (λ x. p x || q x) cs ≡ false
    → any p cs ≡ false
any-or [] p q h = refl
any-or (x ∷ cs) p q h = ground (arith, any-or cs p q)

stored-ok :
    (c : Category) (db : Db) {c' : Category} {d : Db}
    → Categories.stored c db ≡ ok (c', d)
    → (any (has_id c.id) db.categories ≡ false) × (d.categories ≡ c ∷ db.categories)
stored-ok c db k = (
  any-or db.categories (has_id c.id) (Categories.has_slug c.slug) (ground (arith, k)),
  ground (arith, k),
)

Categories-create-is_forest :
    (env : Env) (w : World) {v : World} (cmd : NewCategory) {c : Category}
    → Categories.create cmd env w ≡ (ok c, v)
    → placed w.db.categories cmd.parent_id ≡ true
    → is_forest w.db.categories ≡ true
    → is_forest v.db.categories ≡ true
unfolding Categories.create
Categories-create-is_forest env w cmd h p a =
    let c = inserted cmd (env.fresh w.calls) in
    let (new, e) = stored-ok c w.db (step-ok env w _ h) in
    subst (λ cs. is_forest cs ≡ true) (sym e) (insert-is_forest c w.db.categories new p a)

create-is_forest :
    (env : Env) (w : World) {v : World} (actor : AuthUser) (cmd : CreateCategoryCmd) {c : Category}
    → create_category actor cmd env w ≡ (ok c, v)
    → is_forest w.db.categories ≡ true
    → is_forest v.db.categories ≡ true
unfolding create_category
create-is_forest env w actor cmd h a =
    let (x, u, h1, k1) = bind-ok env (prepare_create actor cmd) _ w h in
    let (c, u2, h2, e) =
      after-ok cats env u (Categories.create (new_category cmd)) _
        (λ c.
          Keeps-bind cats (Audit.log actor.id "category.create" "category" c.id) _
            (Keeps-log _ _ _ _) (λ _. Keeps-pure cats c))
        k1 in
    let same = Reads-ok env w _ (Reads-prepare_create actor cmd) h1 in
    subst (λ cs. is_forest cs ≡ true) (sym e)
      (Categories-create-is_forest env u (new_category cmd) h2
        (prepare_create-ok env w actor cmd h1)
        (subst (λ (d : Db). is_forest d.categories ≡ true) (sym same) a))

-- What an update does to the rows.
Categories-update-ok :
    (env : Env) (w : World) {v : World} (id : ℕ) (patch : UpdateCategory) {c : Category}
    → Categories.update id patch env w ≡ (ok c, v)
    → v.db.categories ≡ update_rows (has_id id) (patched patch) w.db.categories
unfolding Categories.update
Categories-update-ok env w id patch h =
    of_row (find_row (has_id id) w.db.categories) (step-ok env w _ h)
  where
    of_row :
        {c : Category} {d : Db} (o : Option Category)
        → Categories.updated o id patch w.db ≡ ok (c, d)
        → d.categories ≡ update_rows (has_id id) (patched patch) w.db.categories
    of_row none k = cc
    of_row (some c) k = ground (arith, k)

update-ok :
    (env : Env) (w : World) {v : World} (actor : AuthUser) (id : ℕ) (cmd : UpdateCategoryCmd)
    {c : Category}
    → update_category actor id cmd env w ≡ (ok c, v)
    → v.db.categories ≡ update_rows (has_id id) (patched (category_patch cmd)) w.db.categories
unfolding update_category
update-ok env w actor id cmd h =
    let (x, u, h1, k1) = bind-ok env (prepare_update actor id cmd) _ w h in
    let (c, u2, h2, e) =
      after-ok cats env u (Categories.update id (category_patch cmd)) _
        (λ c.
          Keeps-bind cats (Audit.log actor.id "category.update" "category" c.id) _
            (Keeps-log _ _ _ _) (λ _. Keeps-pure cats c))
        k1 in
    let same = Reads-ok env w _ (Reads-prepare_update actor id cmd) h1 in
    e
    ∙ Categories-update-ok env u id (category_patch cmd) h2
    ∙ ap (λ (d : Db). update_rows (has_id id) (patched (category_patch cmd)) d.categories) same

prepare_delete-ok :
    (env : Env) (w : World) {v : World} (actor : AuthUser) (id : ℕ) {x : Unit {0}}
    → prepare_delete actor id env w ≡ (ok x, v)
    → any (is_child id) w.db.categories ≡ false
unfolding prepare_delete Categories.has_children
prepare_delete-ok env w actor id h =
    let (x1, u1, h1, k1) = bind-ok env (lift (can_manage_categories actor)) _ w h in
    let (c, u2, h2, k2) = bind-ok env (some_category id) _ u1 k1 in
    let (b, u3, h3, k3) = bind-ok env (Categories.has_children id) _ u2 k2 in
    let (x4, u4, h4, k4) = bind-ok env (refuse_if b _) _ u3 k3 in
    let same = Reads-ok env u1 _ (Reads-some_category id) h2 ∙ (lift-ok env w _ h1).1 in
    subst (λ (d : Db). any (is_child id) d.categories ≡ false) same
      (result (read-ok env u2 (λ db. ok (any (is_child id) db.categories)) h3).0
        ∙ refuse_if-ok env u3 b _ h4)
  where
    result : {a b : Bool} → ok a ≡ ok b → a ≡ b
    result e = cc

Categories-delete-ok :
    (env : Env) (w : World) {v : World} (id : ℕ) {x : Unit {0}}
    → Categories.delete id env w ≡ (ok x, v)
    → v.db.categories ≡ keep (λ c. not (has_id id c)) w.db.categories
unfolding Categories.delete
Categories-delete-ok env w id h = let k = step-ok env w _ h in ground (arith, k)

delete-tree_kept :
    (env : Env) (w : World) {v : World} (actor : AuthUser) (id : ℕ) {x : Unit {0}}
    → delete_category actor id env w ≡ (ok x, v)
    → is_forest w.db.categories ≡ true
    → is_forest v.db.categories ≡ true
unfolding delete_category
delete-tree_kept env w actor id h a =
    let (x1, u, h1, k1) = bind-ok env (prepare_delete actor id) _ w h in
    let (x2, u2, h2, e) =
      after-ok cats env u (Categories.delete id) _ (λ _. Keeps-log _ _ _ _) k1 in
    let same = Reads-ok env w _ (Reads-prepare_delete actor id) h1 in
    subst (λ cs. is_forest cs ≡ true)
      (sym (
        e
        ∙ Categories-delete-ok env u id h2
        ∙ ap (λ (d : Db). keep (λ c. not (has_id id c)) d.categories) same))
      (delete-is_forest id w.db.categories (prepare_delete-ok env w actor id h1) a)

-- Whether a request leaves the parents of the categories that are there.
abbrev pub keeps_parents : CategoryRequest → Bool
keeps_parents (update_request id cmd) = elim cmd.parent_id [ none ↦ true | some _ ↦ false ]
keeps_parents _ = true

given-none : (o : Option (Option ℕ)) → (elim o [ none ↦ true | some _ ↦ false ]) ≡ true → o ≡ none
given-none none h = refl
given-none (some p) h = cc

served-is_forest :
    (env : Env) (w : World) {v : World} {x : Unit {0}} (actor : AuthUser) (r : CategoryRequest)
    → keeps_parents r ≡ true
    → serve actor r env w ≡ (ok x, v)
    → is_forest w.db.categories ≡ true
    → is_forest v.db.categories ≡ true
unfolding serve
served-is_forest env w actor (create_request cmd) p h a =
    dropped (λ d. is_forest d.categories ≡ true) env w (create_category actor cmd) h
      (λ c u k. create-is_forest env w actor cmd k a)
served-is_forest env w actor (update_request id cmd) p h a =
    dropped (λ d. is_forest d.categories ≡ true) env w (update_category actor id cmd) h
      (λ c u k.
        subst (λ cs. is_forest cs ≡ true) (sym (update-ok env w actor id cmd k))
          (update-is_forest id (category_patch cmd) (given-none cmd.parent_id p) w.db.categories a))
served-is_forest env w actor (delete_request id) p h a = delete-tree_kept env w actor id h a

-- Where every category stands at the top or under a category at the top, the same holds after a request
-- that creates, changes or deletes a category, whoever makes it, whatever it asks but to change a
-- parent, and whether or not it succeeds.
pub serve-is_forest :
    (env : Env) (w : World) (actor : AuthUser) (r : CategoryRequest)
    → keeps_parents r ≡ true
    → is_forest w.db.categories ≡ true
    → is_forest (serve actor r env w).1.db.categories ≡ true
serve-is_forest env w actor r p a = elim (outcome (serve actor r) env w) [
  | inl (x, h) ↦ served-is_forest env w actor r p h a
  | inr (e, h) ↦
      subst (λ (d : Db). is_forest d.categories ≡ true)
        (sym (serve_category_atomic env w actor r e h)) a
]
