-- ===== src/AdminUseCase.antt =====
-- backend/crates/ferum-application/src/usecases/admin_usecase.rs: the categories of the forum. The members
-- and the moderators are in Members.
pub mod Tree
pub mod Checks
pub mod Nested
pub mod Members
use ferum_board.Prelude.{
  ℕ, String, Bool, true, false, not, Option, none, some, List, [], ◌∷◌, ◌==◌, any, ltb, str_eq,
  is_some, if◌then◌else◌,
}
use ferum_board.Prelude.Int.{ℤ}
use ferum_board.Domain.Error.{conflict, or_not_found, unprocessable_entity}
use ferum_board.Domain.AuthUser.{AuthUser}
use ferum_board.Domain.Forum.{Category, ViewPolicy, PostPolicy}
use ferum_board.Exec.{Exec, pure, lift, refuse_if, ◌>>=◌, ◌>>◌}
use ferum_board.Permission.{can_manage_categories}
use ferum_board.Repo.Categories
use ferum_board.Repo.Categories.{NewCategory, UpdateCategory}
use ferum_board.Repo.Audit

-- backend/crates/ferum-application/src/validators/mod.rs.
abbrev pub reserved_slugs : List String
reserved_slugs =
    "api" ∷ "admin" ∷ "mod" ∷ "auth" ∷ "setup" ∷ "health" ∷ "files" ∷ "search" ∷ "static" ∷ "assets"
    ∷ "public" ∷ "private" ∷ []

unfoldable pub is_reserved_slug : String → Bool
is_reserved_slug s = any (λ r. str_eq r s) reserved_slugs

pub record CreateCategoryCmd : Type 0 where
  pub name : String
  pub slug : String
  pub parent_id : Option ℕ
  pub position : ℤ
  pub view_policy : ViewPolicy
  pub post_policy : PostPolicy

pub record UpdateCategoryCmd : Type 0 where
  pub name : Option String
  pub slug : Option String
  pub parent_id : Option (Option ℕ)
  pub position : Option ℤ
  pub view_policy : Option ViewPolicy
  pub post_policy : Option PostPolicy

-- `find_by_id(id).await?.or_not_found()?`.
unfoldable pub some_category : ℕ → Exec Category
unfolding ◌>>=◌ Categories.find_by_id
some_category id = do found ← Categories.find_by_id id; lift (or_not_found found)

unfoldable pub list_categories : AuthUser → Exec (List Category)
unfolding ◌>>=◌ can_manage_categories Categories.list_all
list_categories actor = do lift (can_manage_categories actor); Categories.list_all

-- A parent stands at the top.
unfoldable pub check_parent : Option ℕ → Exec (Unit {0})
unfolding ◌>>=◌ some_category
check_parent none = pure tt
check_parent (some parent_id) = do
  parent ← some_category parent_id
  refuse_if (is_some parent.parent_id) (unprocessable_entity "Max 2 levels of category nesting")

-- The checks of `create_category`.
unfoldable pub prepare_create : AuthUser → CreateCategoryCmd → Exec (Unit {0})
unfolding ◌>>=◌ can_manage_categories is_reserved_slug check_parent Categories.find_by_slug
prepare_create actor cmd = do
  lift (can_manage_categories actor)
  refuse_if (is_reserved_slug cmd.slug) (unprocessable_entity "slug_reserved")
  same ← Categories.find_by_slug cmd.slug
  refuse_if (is_some same) (conflict "slug_taken")
  check_parent cmd.parent_id

abbrev pub new_category : CreateCategoryCmd → NewCategory
new_category cmd = record {
  slug = cmd.slug;
  name = cmd.name;
  parent_id = cmd.parent_id;
  position = cmd.position;
  view_policy = cmd.view_policy;
  post_policy = cmd.post_policy;
}

unfoldable pub create_category : AuthUser → CreateCategoryCmd → Exec Category
unfolding ◌>>=◌ prepare_create Categories.create Audit.log
create_category actor cmd = do
  prepare_create actor cmd
  category ← Categories.create (new_category cmd)
  Audit.log actor.id "category.create" "category" category.id
  pure category

abbrev is_other : ℕ → Option Category → Bool
is_other id none = false
is_other id (some c) = not (c.id == id)

-- A new slug is neither reserved nor that of another category.
unfoldable pub check_slug : ℕ → Option String → Exec (Unit {0})
unfolding ◌>>=◌ is_reserved_slug Categories.find_by_slug
check_slug id none = pure tt
check_slug id (some slug) = do
  refuse_if (is_reserved_slug slug) (unprocessable_entity "slug_reserved")
  existing ← Categories.find_by_slug slug
  refuse_if (is_other id existing) (conflict "slug_taken")

-- The checks of `update_category`.
unfoldable pub prepare_update : AuthUser → ℕ → UpdateCategoryCmd → Exec (Unit {0})
unfolding ◌>>=◌ can_manage_categories some_category check_slug
prepare_update actor id cmd = do
  lift (can_manage_categories actor)
  some_category id
  check_slug id cmd.slug

abbrev pub category_patch : UpdateCategoryCmd → UpdateCategory
category_patch cmd = record {
  name = cmd.name;
  slug = cmd.slug;
  parent_id = cmd.parent_id;
  position = cmd.position;
  view_policy = cmd.view_policy;
  post_policy = cmd.post_policy;
}

unfoldable pub update_category : AuthUser → ℕ → UpdateCategoryCmd → Exec Category
unfolding ◌>>=◌ prepare_update Categories.update Audit.log
update_category actor id cmd = do
  prepare_update actor id cmd
  category ← Categories.update id (category_patch cmd)
  Audit.log actor.id "category.update" "category" category.id
  pure category

-- `counts.first().map(|(_, c)| *c).unwrap_or(0)`.
abbrev pub first_count : List (ℕ × ℕ) → ℕ
first_count [] = 0
first_count (c ∷ _) = c.1

-- The checks of `delete_category`.
unfoldable pub prepare_delete : AuthUser → ℕ → Exec (Unit {0})
unfolding ◌>>=◌ can_manage_categories some_category Categories.has_children
    Categories.count_threads_by_categories
prepare_delete actor id = do
  lift (can_manage_categories actor)
  some_category id
  parent ← Categories.has_children id
  refuse_if parent (conflict "category_has_subcategories")
  counts ← Categories.count_threads_by_categories (id ∷ [])
  refuse_if (ltb 0 (first_count counts)) (conflict "category_has_threads")

unfoldable pub delete_category : AuthUser → ℕ → Exec (Unit {0})
unfolding ◌>>=◌ prepare_delete Categories.delete Audit.log
delete_category actor id = do
  prepare_delete actor id
  Categories.delete id
  Audit.log actor.id "category.delete" "category" id

-- The requests that change categories, as data, and the use case as the function that serves them.
pub data CategoryRequest : Type 0 where
  create_request : CreateCategoryCmd → CategoryRequest
  update_request : (id : ℕ) → UpdateCategoryCmd → CategoryRequest
  delete_request : (id : ℕ) → CategoryRequest

unfoldable pub serve : AuthUser → CategoryRequest → Exec (Unit {0})
unfolding ◌>>=◌ create_category update_category delete_category
serve actor (create_request cmd) = create_category actor cmd >> pure tt
serve actor (update_request id cmd) = update_category actor id cmd >> pure tt
serve actor (delete_request id) = delete_category actor id
