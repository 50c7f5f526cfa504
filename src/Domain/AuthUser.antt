-- ===== src/Domain/AuthUser.antt =====
-- backend/crates/ferum-domain/src/auth_user.rs: the user of a request with the permissions resolved
-- for it. A hash set is the list of its elements, a hash map the list of its entries.
pub mod Scope
use ferum_board.Prelude.{
  ℕ, String, Text, Bool, true, false, ◌||◌, Option, none, some, List, [], ◌∷◌, any, str_eq, ◌==◌,
  if◌then◌else◌,
}
use ferum_board.Domain.User.{TrustLevel, trust_ge, after_or}

pub record AuthUser : Type 0 where
  pub id : ℕ
  pub username : Text
  pub display_name : Option String
  pub avatar_url : Option String
  pub trust_level : TrustLevel
  pub is_banned : Bool
  pub banned_until : Option ℕ
  pub permissions : List String
  pub category_permissions : List (ℕ × List String)

unfoldable pub contains : List String → String → Bool
contains set key = any (λ k. str_eq k key) set

-- `HashMap::get`.
unfoldable pub get : List (ℕ × List String) → ℕ → Option (List String)
get [] c = none
get ((k, v) ∷ m) c = if k == c then some v else get m c

-- `Option::map_or(false, |p| p.contains(key))`.
abbrev pub contains_in : Option (List String) → String → Bool
contains_in none key = false
contains_in (some p) key = contains p key

unfoldable pub is_currently_banned : AuthUser → ℕ → Bool
is_currently_banned u now = if u.is_banned then after_or u.banned_until now true else false

unfoldable pub has_perm : AuthUser → String → Bool
has_perm u key = contains u.permissions key

unfoldable pub has_perm_in : AuthUser → String → ℕ → Bool
has_perm_in u key category_id =
    has_perm u key || contains_in (get u.category_permissions category_id) key

unfoldable pub has_perm_any_category : AuthUser → String → Bool
has_perm_any_category u key = has_perm u key || any (λ e. contains e.1 key) u.category_permissions

unfoldable pub categories_with : List (ℕ × List String) → String → List ℕ
categories_with [] key = []
categories_with ((c, perms) ∷ m) key =
    let rest = categories_with m key in if contains perms key then c ∷ rest else rest

-- `None` stands for every category.
unfoldable pub permitted_category_ids : AuthUser → String → Option (List ℕ)
unfolding categories_with
permitted_category_ids u key =
    if has_perm u key then none else some (categories_with u.category_permissions key)

unfoldable pub meets_trust : AuthUser → TrustLevel → Bool
meets_trust u required = trust_ge u.trust_level required
