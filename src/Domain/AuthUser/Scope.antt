-- ===== src/Domain/AuthUser/Scope.antt =====
-- The two ways to scope a moderator agree: the list that filters a queue, and the check of one
-- category.
use ferum_board.Prelude.{
  ℕ, String, ◌≡◌, refl, ◌≢◌, Bool, true, false, Option, none, some, List, [], ◌∷◌, any, arith, ◌==◌,
}
use ferum_board.Domain.AuthUser.{
  AuthUser, get, contains_in, has_perm_in, categories_with, permitted_category_ids,
}

-- A key that the map does not have.
abbrev pub IsFresh : ℕ → List (ℕ × List String) → Type 0
IsFresh c [] = Unit
IsFresh c ((k, v) ∷ m) = (k ≢ c) × IsFresh c m

-- The keys of a hash map are distinct.
abbrev pub HasDistinctKeys : List (ℕ × List String) → Type 0
HasDistinctKeys [] = Unit
HasDistinctKeys ((k, v) ∷ m) = IsFresh k m × HasDistinctKeys m

-- Whether the category is one that a scope allows.
abbrev pub allows : Option (List ℕ) → ℕ → Bool
allows none c = true
allows (some ids) c = any (λ i. i == c) ids

fresh_absent :
    (c : ℕ) (m : List (ℕ × List String)) (key : String)
    → IsFresh c m
    → any (λ i. i == c) (categories_with m key) ≡ false
unfolding categories_with
fresh_absent c [] key h = refl
fresh_absent c ((k, v) ∷ m) key h = ground (arith, fresh_absent c m key)

categories_with_lem :
    (c : ℕ) (m : List (ℕ × List String)) (key : String)
    → HasDistinctKeys m
    → any (λ i. i == c) (categories_with m key) ≡ contains_in (get m c) key
unfolding categories_with get
categories_with_lem c [] key h = refl
categories_with_lem c ((k, v) ∷ m) key h =
    ground (arith, categories_with_lem c m key, fresh_absent k m key, fresh_absent c m key)

-- For a user whose map of category permissions has distinct keys, the scope that filters a queue
-- allows exactly the categories in which the check of one category passes.
pub permitted_category_ids_iff :
    (u : AuthUser) (key : String) (c : ℕ)
    → HasDistinctKeys u.category_permissions
    → allows (permitted_category_ids u key) c ≡ has_perm_in u key c
unfolding permitted_category_ids has_perm_in
permitted_category_ids_iff u key c h =
    ground (arith, categories_with_lem c u.category_permissions key)
