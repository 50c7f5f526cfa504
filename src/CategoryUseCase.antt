-- ===== src/CategoryUseCase.antt =====
-- backend/crates/ferum-application/src/usecases/category_usecase.rs: the categories that a visitor sees, the
-- index of the forum, and what a user watches and mutes. The names and tags that listings add to a thread
-- are not fields of the model's threads.
pub mod Grouping
pub mod Index
pub mod Recent
pub mod Shown
use ferum_board.Prelude.{
  ℕ, String, Bool, true, false, not, ◌&&◌, Option, none, some, List, [], ◌∷◌, ◌++◌, ◌==◌, any, keep,
  map, is_none, if◌then◌else◌,
}
use ferum_board.Domain.Error.{Result, ok, err, or_not_found}
use ferum_board.Domain.AuthUser.{AuthUser}
use ferum_board.Domain.Forum.{Category, Thread}
use ferum_board.Exec.{Exec, pure, lift, ◌>>=◌, ◌>>◌}
use ferum_board.Exec.Cached.{cache_del}
use ferum_board.Permission.{can_view_category}
use ferum_board.Repo.Categories
use ferum_board.Repo.Threads
use ferum_board.Repo.Config
use ferum_board.CategoryUseCase.Grouping.{Groups, grouped, get, without}

abbrev pub is_ok {ℓ} : {A : Type ℓ} → Result A → Bool
is_ok (ok _) = true
is_ok (err _) = false

-- `PermissionChecker::can_view_category(actor, c).is_ok()`.
unfoldable pub can_see : Option AuthUser → Category → Bool
unfolding can_view_category
can_see actor c = is_ok (can_view_category actor c)

unfoldable pub list_visible : Option AuthUser → Exec (List Category)
unfolding ◌>>=◌ Categories.list_all can_see
list_visible actor = do every ← Categories.list_all; pure (keep (can_see actor) every)

unfoldable pub get_by_slug : Option AuthUser → String → Exec Category
unfolding ◌>>=◌ Categories.find_by_slug can_view_category
get_by_slug actor slug = do
  found ← Categories.find_by_slug slug
  category ← lift (or_not_found found)
  lift (can_view_category actor category)
  pure category

-- backend/crates/ferum-application/src/dto.rs; a subcategory comes with its count of threads.
pub record ForumIndexItem : Type 0 where
  pub category : Category
  pub thread_count : ℕ
  pub subcategories : List (Category × ℕ)
  pub recent_threads : List Thread

-- `counts.get(&id).copied().unwrap_or(0)`, where the last entry of a key counts.
unfoldable pub count_of : List (ℕ × ℕ) → ℕ → ℕ
count_of [] id = 0
count_of ((k, n) ∷ counts) id =
    let rest = count_of counts id in
    if any (λ e. e.0 == id) counts then rest else if k == id then n else 0

abbrev pub item : List (ℕ × ℕ) → Category → List Category → List Thread → ForumIndexItem
item counts c subs threads = record {
  category = c;
  thread_count = count_of counts c.id;
  subcategories = map (λ (s : Category). (s, count_of counts s.id)) subs;
  recent_threads = threads;
}

-- The loop over the parents, each of which takes its groups out of the two maps.
unfoldable pub items_from :
    List (ℕ × ℕ) → List Category → Groups Category → Groups Thread → List ForumIndexItem
unfolding count_of get without
items_from counts [] subs threads = []
items_from counts (c ∷ cs) subs threads =
    item counts c (get c.id subs) (get c.id threads)
    ∷ items_from counts cs (without c.id subs) (without c.id threads)

abbrev pub is_top : Category → Bool
is_top c = is_none c.parent_id

abbrev pub parent_key : Category → Option ℕ
parent_key c = c.parent_id

abbrev pub category_key : Thread → Option ℕ
category_key t = some t.category_id

-- The index made of the rows that the queries gave.
unfoldable pub index_items : List (ℕ × ℕ) → List Category → List Thread → List ForumIndexItem
unfolding items_from grouped
index_items counts visible recent =
    items_from counts (keep is_top visible)
      (grouped parent_key (keep (λ c. not (is_top c)) visible) []) (grouped category_key recent [])

abbrev pub default_index_threads : ℕ
default_index_threads = 5

-- The queries of the index, for a site whose configuration is stored.
unfoldable pub query_index : List Category → Exec (List ForumIndexItem)
unfolding ◌>>=◌ index_items Config.get_config_u64 Categories.count_threads_by_categories
    Threads.list_recent_by_categories
query_index visible = do
  limit ← Config.get_config_u64 "forum_index_threads_per_category" default_index_threads
  counts ← Categories.count_threads_by_categories (map (λ (c : Category). c.id) visible)
  recent ←
      Threads.list_recent_by_categories (map (λ (c : Category). c.id) (keep is_top visible)) limit
  pure (index_items counts visible recent)

abbrev index_of : List Category → Exec (List ForumIndexItem)
index_of [] = pure []
index_of (c ∷ cs) = query_index (c ∷ cs)

unfoldable pub get_forum_index : Option AuthUser → Exec (List ForumIndexItem)
unfolding ◌>>=◌ Categories.list_all can_see query_index
get_forum_index actor = do every ← Categories.list_all; index_of (keep (can_see actor) every)

unfoldable pub require_visible : AuthUser → ℕ → Exec (Unit {0})
unfolding ◌>>=◌ Categories.find_by_id can_view_category
require_visible actor category_id = do
  found ← Categories.find_by_id category_id
  category ← lift (or_not_found found)
  lift (can_view_category (some actor) category)

-- The key of a user's preferences in the cache is a text that the code formats.
module _ (preferences_key : ℕ → String) where
  unfoldable pub watch_category : AuthUser → ℕ → Exec (Unit {0})
  unfolding ◌>>=◌ require_visible Categories.watch_category cache_del
  watch_category actor category_id = do
    require_visible actor category_id
    Categories.watch_category actor.id category_id
    cache_del (preferences_key actor.id)

  unfoldable pub unwatch_category : AuthUser → ℕ → Exec (Unit {0})
  unfolding ◌>>=◌ require_visible Categories.unwatch_category cache_del
  unwatch_category actor category_id = do
    require_visible actor category_id
    Categories.unwatch_category actor.id category_id
    cache_del (preferences_key actor.id)

  unfoldable pub mute_category : AuthUser → ℕ → Exec (Unit {0})
  unfolding ◌>>=◌ require_visible Categories.mute_category cache_del
  mute_category actor category_id = do
    require_visible actor category_id
    Categories.mute_category actor.id category_id
    cache_del (preferences_key actor.id)

  unfoldable pub unmute_category : AuthUser → ℕ → Exec (Unit {0})
  unfolding ◌>>=◌ require_visible Categories.unmute_category cache_del
  unmute_category actor category_id = do
    require_visible actor category_id
    Categories.unmute_category actor.id category_id
    cache_del (preferences_key actor.id)

-- Whether the user watches and mutes a category.
unfoldable pub get_watch_status : AuthUser → ℕ → Exec (Bool × Bool)
unfolding ◌>>=◌ require_visible Categories.get_watched_categories Categories.get_muted_categories
get_watch_status actor category_id = do
  require_visible actor category_id
  watched ← Categories.get_watched_categories actor.id
  muted ← Categories.get_muted_categories actor.id
  pure (any (λ c. c == category_id) watched, any (λ c. c == category_id) muted)
