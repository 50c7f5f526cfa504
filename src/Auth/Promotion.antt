-- ===== src/Auth/Promotion.antt =====
-- The lazy promotion of `login`.
use ferum_board.Prelude.{ℕ, ◌≡◌, ◌≤◌, Option, none, some, ◌⊎◌, find_row}
use ferum_board.Domain.User.{User, TrustLevel, basic, member, regular}
use ferum_board.Store.{Db}
use ferum_board.Exec.Keeps.{Keeps}
use ferum_board.Repo.Users

-- What a level and the activity of its user earn: a user of the level `basic` becomes a member with 30
-- posts on 15 days, and a member a regular with 500 posts, 100 days and a score of 80.
abbrev pub Earns : TrustLevel → (posts days score : ℕ) → TrustLevel → Type 0
Earns l posts days score member = (l ≡ basic) × ((30 ≤ posts) × (15 ≤ days))
Earns l posts days score regular = (l ≡ member) × ((500 ≤ posts) × ((100 ≤ days) × (80 ≤ score)))
Earns l posts days score _ = ⊥

-- The level that is earned, or the old one where none is.
abbrev pub IsEarned : TrustLevel → (posts days score : ℕ) → TrustLevel → Type 0
IsEarned l posts days score level =
    Earns l posts days score level
    ⊎ ((¬ Earns l posts days score member) × ((¬ Earns l posts days score regular) × (level ≡ l)))

abbrev pub IsPromoted : User → TrustLevel → Type 0
IsPromoted u level = IsEarned u.trust_level u.post_count u.days_visited u.trust_score level

-- The level of trust that is stored for a user.
abbrev pub trust_of : Option User → Option TrustLevel
trust_of none = none
trust_of (some u) = some u.trust_level

unfoldable pub level_of : ℕ → Db → Option TrustLevel
level_of id db = trust_of (find_row (Users.has_id id) db.users)
