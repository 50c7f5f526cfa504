-- ===== src/Repo/Categories.antt =====
-- backend/crates/ferum-infrastructure/src/repositories/category_repository.rs, with the keys of its table,
-- and the watched and muted categories of user_repository.rs.
use ferum_board.Prelude.{
  ℕ, String, Bool, true, false, not, ◌&&◌, ◌||◌, Option, none, some, List, [], ◌∷◌, ◌==◌, str_eq,
  any, keep, map, length, find_row, update_rows, is_none, if◌then◌else◌,
}
use ferum_board.Prelude.Int.{ℤ, leb_ℤ}
use ferum_board.Domain.Error.{Result, ok, err, not_found}
use ferum_board.Domain.Forum.{Category, Thread, ViewPolicy, PostPolicy}
use ferum_board.Store.{Db}
use ferum_board.Exec.{Exec, read, step, write, db_error}
use ferum_board.Repo.Threads.{set}

pub record NewCategory : Type 0 where
  pub slug : String
  pub name : String
  pub parent_id : Option ℕ
  pub position : ℤ
  pub view_policy : ViewPolicy
  pub post_policy : PostPolicy

-- Each field is changed where it is given; a given parent may be none.
pub record UpdateCategory : Type 0 where
  pub name : Option String
  pub slug : Option String
  pub parent_id : Option (Option ℕ)
  pub position : Option ℤ
  pub view_policy : Option ViewPolicy
  pub post_policy : Option PostPolicy

abbrev pub has_id : ℕ → Category → Bool
has_id id c = c.id == id

abbrev pub has_slug : String → Category → Bool
has_slug slug c = str_eq c.slug slug

-- `ORDER BY position`: rows of one position stay in the order of the table.
unfoldable pub insert_by_position : Category → List Category → List Category
insert_by_position c [] = c ∷ []
insert_by_position c (d ∷ ds) =
    let later = d ∷ insert_by_position c ds in
    if leb_ℤ c.position d.position then c ∷ d ∷ ds else later

unfoldable pub by_position : List Category → List Category
unfolding insert_by_position
by_position [] = []
by_position (c ∷ cs) = insert_by_position c (by_position cs)

unfoldable pub list_all : Exec (List Category)
unfolding by_position
list_all = read (λ db. ok (by_position db.categories))

unfoldable pub find_by_id : ℕ → Exec (Option Category)
find_by_id id = read (λ db. ok (find_row (has_id id) db.categories))

unfoldable pub find_by_slug : String → Exec (Option Category)
find_by_slug slug = read (λ db. ok (find_row (has_slug slug) db.categories))

abbrev pub inserted : NewCategory → ℕ → Category
inserted cmd id = record {
  id = id;
  parent_id = cmd.parent_id;
  slug = cmd.slug;
  name = cmd.name;
  position = cmd.position;
  view_policy = cmd.view_policy;
  post_policy = cmd.post_policy;
}

-- The foreign key of a parent.
abbrev pub known_parent : Option ℕ → List Category → Bool
known_parent none cs = true
known_parent (some p) cs = any (has_id p) cs

-- The identifier and the slug are unique, and a parent has to exist.
abbrev pub stored : Category → Db → Result (Category × Db)
stored c db =
    if any (λ x. has_id c.id x || has_slug c.slug x) db.categories
    then err db_error
    else if known_parent c.parent_id db.categories
    then ok (c, record db { categories = c ∷ db.categories })
    else err db_error

unfoldable pub create : NewCategory → Exec Category
create cmd = step (λ env n db. stored (inserted cmd (env.fresh n)) db)

unfoldable pub patched : UpdateCategory → Category → Category
patched patch c = record c {
  name = set patch.name c.name;
  slug = set patch.slug c.slug;
  parent_id = set patch.parent_id c.parent_id;
  position = set patch.position c.position;
  view_policy = set patch.view_policy c.view_policy;
  post_policy = set patch.post_policy c.post_policy;
}

-- Whether another row has the slug.
abbrev taken : ℕ → String → List Category → Bool
taken id slug cs = any (λ x. has_slug slug x && not (has_id id x)) cs

abbrev pub updated : Option Category → ℕ → UpdateCategory → Db → Result (Category × Db)
updated none id patch db = err not_found
updated (some c) id patch db =
    let c' = patched patch c in
    if taken id c'.slug db.categories
    then err db_error
    else if known_parent c'.parent_id db.categories
    then ok (c', record db { categories = update_rows (has_id id) (patched patch) db.categories })
    else err db_error

unfoldable pub update : ℕ → UpdateCategory → Exec Category
unfolding patched
update id patch = step (λ env n db. updated (find_row (has_id id) db.categories) id patch db)

abbrev pub is_child : ℕ → Category → Bool
is_child id c = elim c.parent_id [ none ↦ false | some p ↦ p == id ]

-- Threads and subcategories keep a category from being deleted, soft-deleted threads too; what users
-- watch and mute, and the roles that they hold in the category, go with it.
unfoldable pub delete : ℕ → Exec (Unit {0})
delete id = step (λ env n db.
    if any (λ t. t.category_id == id) db.threads
      || any (λ c. is_child id c && not (has_id id c)) db.categories
    then err db_error
    else ok (
      tt,
      record db {
        categories = keep (λ c. not (has_id id c)) db.categories;
        access = record db.access {
          user_roles =
              keep (λ a. not (elim a.category_id [ none ↦ false | some c ↦ c == id ]))
                db.access.user_roles;
        };
        social = record db.social {
          watched = keep (λ r. not (r.1 == id)) db.social.watched;
          muted = keep (λ r. not (r.1 == id)) db.social.muted;
        };
      },
    ))

unfoldable pub has_children : ℕ → Exec Bool
has_children id = read (λ db. ok (any (is_child id) db.categories))

-- The threads of a category that are not deleted.
unfoldable pub count_threads : ℕ → List Thread → ℕ
count_threads id ts = length (keep (λ t. t.category_id == id && is_none t.deleted_at) ts)

-- A count for each of the rows that the list names.
unfoldable pub count_threads_by_categories : List ℕ → Exec (List (ℕ × ℕ))
unfolding count_threads
count_threads_by_categories ids = read (λ db. ok (
    map (λ (c : Category). (c.id, count_threads c.id db.threads))
      (keep (λ c. any (λ i. i == c.id) ids) db.categories)))

abbrev pub is_row : (user_id category_id : ℕ) → ℕ × ℕ → Bool
is_row user_id category_id r = r.0 == user_id && r.1 == category_id

-- The categories of a user's rows.
unfoldable pub of_user : ℕ → List (ℕ × ℕ) → List ℕ
of_user user_id [] = []
of_user user_id ((u, c) ∷ rows) =
    let rest = of_user user_id rows in if u == user_id then c ∷ rest else rest

-- `ON CONFLICT DO NOTHING`.
unfoldable pub with_row : (user_id category_id : ℕ) → List (ℕ × ℕ) → List (ℕ × ℕ)
with_row user_id category_id rows =
    if any (is_row user_id category_id) rows then rows else (user_id, category_id) ∷ rows

unfoldable pub without_row : (user_id category_id : ℕ) → List (ℕ × ℕ) → List (ℕ × ℕ)
without_row user_id category_id rows = keep (λ r. not (is_row user_id category_id r)) rows

-- The foreign keys of the rows.
abbrev pub known : (user_id category_id : ℕ) → Db → Bool
known user_id category_id db =
    any (λ u. u.id == user_id) db.users && any (has_id category_id) db.categories

unfoldable pub get_watched_categories : ℕ → Exec (List ℕ)
unfolding of_user
get_watched_categories user_id = read (λ db. ok (of_user user_id db.social.watched))

unfoldable pub get_muted_categories : ℕ → Exec (List ℕ)
unfolding of_user
get_muted_categories user_id = read (λ db. ok (of_user user_id db.social.muted))

unfoldable pub watch_category : (user_id category_id : ℕ) → Exec (Unit {0})
unfolding with_row
watch_category user_id category_id = step (λ env n db.
    if known user_id category_id db
    then ok (
      tt,
      record db {
        social = record db.social { watched = with_row user_id category_id db.social.watched };
      },
    )
    else err db_error)

unfoldable pub unwatch_category : (user_id category_id : ℕ) → Exec (Unit {0})
unfolding without_row
unwatch_category user_id category_id = write (λ db. record db {
  social = record db.social { watched = without_row user_id category_id db.social.watched };
})

unfoldable pub mute_category : (user_id category_id : ℕ) → Exec (Unit {0})
unfolding with_row
mute_category user_id category_id = step (λ env n db.
    if known user_id category_id db
    then ok (
      tt,
      record db {
        social = record db.social { muted = with_row user_id category_id db.social.muted };
      },
    )
    else err db_error)

unfoldable pub unmute_category : (user_id category_id : ℕ) → Exec (Unit {0})
unfolding without_row
unmute_category user_id category_id = write (λ db. record db {
  social = record db.social { muted = without_row user_id category_id db.social.muted };
})
