-- ===== src/AdminUseCase/Checks.antt =====
-- The requests on categories: their checks only read, and each is all or nothing.
use ferum_board.Prelude.{ℕ, ◌≡◌, Option, none, some, List, [], ◌∷◌, arith, is_some, String}
use ferum_board.Domain.Error.{AppError, err, or_not_found}
use ferum_board.Domain.AuthUser.{AuthUser}
use ferum_board.Domain.Forum.{Category}
use ferum_board.Store.{Db, Env}
use ferum_board.Exec.{World, lift, refuse_if, step}
use ferum_board.Exec.Rules.{
  Reads, Atomic, Atomic-bind, Atomic-step, Atomic-commit, Sure-pure, Sure-bind, Sure-swallow, Sure,
  Reads-lift, Reads-read, Reads-bind, Reads-refuse_if, Reads-pure,
}
use ferum_board.Exec.Keeps.{Keeps, Keeps-swallow}
use ferum_board.Permission.{can_manage_categories}
use ferum_board.Repo.Categories
use ferum_board.Repo.Categories.{
  has_id, is_child, UpdateCategory, NewCategory, patched, inserted, known_parent,
}
use ferum_board.Repo.Audit
use ferum_board.AdminUseCase.{
  some_category, check_parent, check_slug, prepare_create, prepare_update, prepare_delete,
  CreateCategoryCmd, UpdateCategoryCmd, new_category, category_patch, create_category,
  update_category, delete_category, CategoryRequest, create_request, update_request, delete_request,
  serve, is_reserved_slug,
}

-- The part of the database that the tree stands in.
abbrev pub cats : Db → List Category
cats db = db.categories

pub Reads-some_category : (id : ℕ) → Reads (some_category id)
unfolding some_category Categories.find_by_id
Reads-some_category id =
    Reads-bind (Categories.find_by_id id) _ (Reads-read _) (λ o. Reads-lift (or_not_found o))

pub Reads-check_parent : (p : Option ℕ) → Reads (check_parent p)
unfolding check_parent
Reads-check_parent none = Reads-pure tt
Reads-check_parent (some p) =
    Reads-bind (some_category p) _ (Reads-some_category p) (λ c. Reads-refuse_if _ _)

Reads-check_slug : (id : ℕ) (s : Option String) → Reads (check_slug id s)
unfolding check_slug Categories.find_by_slug
Reads-check_slug id none = Reads-pure tt
Reads-check_slug id (some s) =
    Reads-bind (refuse_if (is_reserved_slug s) _) _ (Reads-refuse_if _ _)
      (λ _. Reads-bind (Categories.find_by_slug s) _ (Reads-read _) (λ o. Reads-refuse_if _ _))

pub Reads-prepare_create :
    (actor : AuthUser) (cmd : CreateCategoryCmd) → Reads (prepare_create actor cmd)
unfolding prepare_create Categories.find_by_slug
Reads-prepare_create actor cmd =
    Reads-bind (lift (can_manage_categories actor)) _ (Reads-lift _) (λ _.
      Reads-bind (refuse_if (is_reserved_slug cmd.slug) _) _ (Reads-refuse_if _ _) (λ _.
        Reads-bind (Categories.find_by_slug cmd.slug) _ (Reads-read _) (λ o.
          Reads-bind (refuse_if (is_some o) _) _ (Reads-refuse_if _ _)
            (λ _. Reads-check_parent cmd.parent_id))))

pub Reads-prepare_update :
    (actor : AuthUser) (id : ℕ) (cmd : UpdateCategoryCmd) → Reads (prepare_update actor id cmd)
unfolding prepare_update
Reads-prepare_update actor id cmd =
    Reads-bind (lift (can_manage_categories actor)) _ (Reads-lift _) (λ _.
      Reads-bind (some_category id) _ (Reads-some_category id) (λ c. Reads-check_slug id cmd.slug))

pub Reads-prepare_delete : (actor : AuthUser) (id : ℕ) → Reads (prepare_delete actor id)
unfolding prepare_delete Categories.has_children Categories.count_threads_by_categories
Reads-prepare_delete actor id =
    Reads-bind (lift (can_manage_categories actor)) _ (Reads-lift _) (λ _.
      Reads-bind (some_category id) _ (Reads-some_category id) (λ c.
        Reads-bind (Categories.has_children id) _ (Reads-read _) (λ b.
          Reads-bind (refuse_if b _) _ (Reads-refuse_if _ _) (λ _.
            Reads-bind (Categories.count_threads_by_categories (id ∷ [])) _ (Reads-read _)
              (λ n. Reads-refuse_if _ _)))))

Sure-log : (a : ℕ) (x t : String) (i : ℕ) → Sure (Audit.log a x t i)
unfolding Audit.log
Sure-log a x t i = Sure-swallow _

pub Keeps-log : (a : ℕ) (x t : String) (i : ℕ) → Keeps cats (Audit.log a x t i)
unfolding Audit.log Audit.append step
Keeps-log a x t i = Keeps-swallow cats _ (record { same = λ env w. ground arith })

Atomic-serve : (actor : AuthUser) (r : CategoryRequest) → Atomic (serve actor r)
unfolding serve create_category update_category delete_category Categories.create Categories.update
    Categories.delete
Atomic-serve actor (create_request cmd) =
    Atomic-commit (create_category actor cmd) _
      (Atomic-bind (prepare_create actor cmd) _ (Reads-prepare_create actor cmd) (λ _.
        Atomic-commit (Categories.create (new_category cmd)) _ (Atomic-step _) (λ c.
          Sure-bind (Audit.log actor.id "category.create" "category" c.id) _ (Sure-log _ _ _ _)
            (λ _. Sure-pure c))))
      (λ c. Sure-pure tt)
Atomic-serve actor (update_request id cmd) =
    Atomic-commit (update_category actor id cmd) _
      (Atomic-bind (prepare_update actor id cmd) _ (Reads-prepare_update actor id cmd) (λ _.
        Atomic-commit (Categories.update id (category_patch cmd)) _ (Atomic-step _) (λ c.
          Sure-bind (Audit.log actor.id "category.update" "category" c.id) _ (Sure-log _ _ _ _)
            (λ _. Sure-pure c))))
      (λ c. Sure-pure tt)
Atomic-serve actor (delete_request id) =
    Atomic-bind (prepare_delete actor id) _ (Reads-prepare_delete actor id)
      (λ _. Atomic-commit (Categories.delete id) _ (Atomic-step _) (λ _. Sure-log _ _ _ _))

-- Where creating, changing or deleting a category ends in an error, the database is the one that the
-- request started from.
pub serve_category_atomic :
    (env : Env) (w : World) (actor : AuthUser) (r : CategoryRequest) (e : AppError)
    → (serve actor r env w).0 ≡ err e
    → (serve actor r env w).1.db ≡ w.db
serve_category_atomic env w actor r = (Atomic-serve actor r).unchanged env w
