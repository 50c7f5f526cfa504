-- ===== src/ThreadUseCase/Feed.antt =====
-- `visible_category_map` and the choice of categories in `list_feed` of
-- backend/crates/ferum-application/src/usecases/thread_usecase.rs. The map's slugs and names are display
-- fields, so the map is the list of its keys.
use ferum_board.Prelude.{
  ℕ, String, ◌≡◌, refl, ◌∙◌, Bool, true, false, not, ◌&&◌, ◌||◌, Option, none, some, List, [], ◌∷◌,
  ◌==◌, any, keep, map, arith, if◌then◌else◌, ==_iff,
}
use ferum_board.Domain.AuthUser.{AuthUser}
use ferum_board.Domain.Forum.{Category}
use ferum_board.Exec.{Exec, pure, ◌>>=◌, ◌>>◌}
use ferum_board.Exec.Cached.{cache_get, cache_set}
use ferum_board.Repo.Categories
use ferum_board.CategoryUseCase.{can_see}

abbrev pub categories_key : String
categories_key = "forum:categories:all"

-- A minute, in milliseconds.
abbrev pub categories_ttl : ℕ
categories_ttl = 60000

-- The JSON of a list of categories, which may fail both ways.
module _ (to_json : List Category → Option String)
    (from_json : String → Option (List Category)) where
  abbrev store_json : Option String → Exec (Unit {0})
  store_json none = pure tt
  store_json (some json) = cache_set categories_key json categories_ttl

  -- What a miss, or an entry that does not read back, comes to.
  unfoldable pub load_categories : Exec (List Category)
  unfolding ◌>>=◌ Categories.list_all cache_set
  load_categories = do cats ← Categories.list_all; store_json (to_json cats); pure cats

  abbrev decoded : Option String → Option (List Category)
  decoded none = none
  decoded (some json) = from_json json

  abbrev or_load : Option (List Category) → Exec (List Category)
  or_load (some cats) = pure cats
  or_load none = load_categories

  unfoldable pub visible_category_map : Option AuthUser → Exec (List ℕ)
  unfolding ◌>>=◌ cache_get load_categories can_see
  visible_category_map actor = do
    cached ← cache_get categories_key
    all_categories ← or_load (decoded cached)
    pure (map (λ (c : Category). c.id) (keep (can_see actor) all_categories))

-- `contains`.
abbrev pub mem : ℕ → List ℕ → Bool
mem id ids = any (λ i. i == id) ids

abbrev pub is_empty : List ℕ → Bool
is_empty [] = true
is_empty (_ ∷ _) = false

-- The categories of a user's feed, from those that the user sees, watches and mutes.
unfoldable pub personal_feed : (visible watched muted : List ℕ) → List ℕ
personal_feed visible watched muted =
    let had_watched = not (is_empty watched) in
    let base = if had_watched then keep (λ id. mem id visible) watched else visible in
    let has_visible_watched = had_watched && not (is_empty base) in
    let filtered = keep (λ id. not (mem id muted)) base in
    if is_empty filtered && not has_visible_watched
    then keep (λ id. not (mem id muted)) visible
    else filtered

abbrev feed_of : List ℕ → Option AuthUser → Exec (List ℕ)
feed_of visible none = pure visible
feed_of visible (some actor) = do
  watched ← Categories.get_watched_categories actor.id
  muted ← Categories.get_muted_categories actor.id
  pure (personal_feed visible watched muted)

-- The categories that `list_feed` lists the threads of.
unfoldable pub feed_ids :
    (List Category → Option String)
    → (String → Option (List Category))
    → Option AuthUser
    → Exec (List ℕ)
unfolding ◌>>=◌ visible_category_map Categories.get_watched_categories
    Categories.get_muted_categories personal_feed
feed_ids to_json from_json actor = do
  visible ← visible_category_map to_json from_json actor
  feed_of visible actor

mem-keep : (p : ℕ → Bool) (id : ℕ) (ids : List ℕ) → mem id (keep p ids) ≡ (mem id ids && p id)
mem-keep p id [] = refl
mem-keep p id (i ∷ ids) = ground (arith, ==_iff i id, mem-keep p id ids)

is_empty-keep : (p : ℕ → Bool) (ids : List ℕ) → is_empty (keep p ids) ≡ not (any p ids)
is_empty-keep p [] = refl
is_empty-keep p (i ∷ ids) = ground (arith, is_empty-keep p ids)

-- The two ways of the choice where the user watches something.
chosen :
    (id : ℕ) (visible muted base : List ℕ)
    → mem id (
        if is_empty (keep (λ i. not (mem i muted)) base) && not (true && not (is_empty base))
        then keep (λ i. not (mem i muted)) visible
        else keep (λ i. not (mem i muted)) base)
      ≡ (if is_empty base then mem id visible else mem id base) && not (mem id muted)
chosen id visible muted [] = mem-keep (λ i. not (mem i muted)) id visible
chosen id visible muted (b ∷ bs) = ground (arith, mem-keep (λ i. not (mem i muted)) id (b ∷ bs))

joined :
    (a b c d e f : Bool)
    → a ≡ not b
    → c ≡ (d && e)
    → (if a then e else c) && f ≡ e && (f && (d || not b))
joined a b c d e f p q = ground (arith, p, q)

-- A category is in a user's feed exactly where the user sees it, has not muted it, and watches it or
-- watches none that it sees.
pub personal_feed_iff :
    (id : ℕ) (visible watched muted : List ℕ)
    → mem id (personal_feed visible watched muted) ≡ (
        mem id visible
        && (not (mem id muted) && (mem id watched || not (any (λ w. mem w visible) watched))))
unfolding personal_feed
personal_feed_iff id visible [] muted = ground (arith, mem-keep (λ i. not (mem i muted)) id visible)
personal_feed_iff id visible (x ∷ xs) muted =
    chosen id visible muted (keep (λ i. mem i visible) (x ∷ xs))
    ∙ joined (is_empty (keep (λ i. mem i visible) (x ∷ xs))) (any (λ i. mem i visible) (x ∷ xs))
        (mem id (keep (λ i. mem i visible) (x ∷ xs))) (mem id (x ∷ xs)) (mem id visible)
        (not (mem id muted)) (is_empty-keep (λ i. mem i visible) (x ∷ xs))
        (mem-keep (λ i. mem i visible) id (x ∷ xs))
