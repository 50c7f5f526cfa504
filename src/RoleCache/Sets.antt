-- ===== src/RoleCache/Sets.antt =====
-- What a hash set and a map of hash sets hold after an insertion.
use ferum_board.Prelude.{
  ℕ, String, ◌≡◌, refl, ap, Bool, true, ◌||◌, ◌&&◌, List, [], ◌∷◌, arith, str_eq, eq_iff, ◌==◌,
}
use ferum_board.Domain.AuthUser.{contains, contains_in, get}
use ferum_board.RoleCache.{Sets, insert, extend, extend_entry}

pub contains_same :
    (set : List String) (k key : String) → str_eq k key ≡ true → contains set k ≡ contains set key
contains_same set k key h = ap (contains set) ((eq_iff k key).0 h)

contains-insert :
    (k : String) (set : List String) (key : String)
    → contains (insert k set) key ≡ (str_eq k key || contains set key)
unfolding insert contains
contains-insert k set key = ground (arith, contains_same set k key)

pub contains-extend :
    (ks : List String) (set : List String) (key : String)
    → contains (extend set ks) key ≡ (contains ks key || contains set key)
unfolding extend contains
contains-extend [] set key = refl
contains-extend (k ∷ ks) set key =
    ground (arith, contains-extend ks (insert k set) key, contains-insert k set key)

-- The keys that a map has for an id.
abbrev pub has_key : Sets → ℕ → String → Bool
has_key m id key = contains_in (get m id) key

pub has_key-extend_entry :
    (id : ℕ) (keys : List String) (m : Sets) (c : ℕ) (key : String)
    → has_key (extend_entry id keys m) c key ≡ ((id == c) && contains keys key || has_key m c key)
unfolding extend_entry get contains
has_key-extend_entry id keys [] c key = ground (arith, contains-extend keys [] key)
has_key-extend_entry id keys ((k, v) ∷ m) c key =
    ground (arith, contains-extend keys v key, has_key-extend_entry id keys m c key)
