-- ===== src/Domain/Role.antt =====
-- Roles and their assignments: backend/crates/ferum-domain/src/models/role.rs, without names and colours.
use ferum_board.Prelude.{ℕ, String, Bool, false, Option, none, some, leb}

pub record Role : Type 0 where
  pub id : ℕ
  pub slug : String
  pub is_system : Bool
  pub is_default : Bool

-- With no category, the role holds everywhere.
pub record UserRoleAssignment : Type 0 where
  pub id : ℕ
  pub user_id : ℕ
  pub role_id : ℕ
  pub category_id : Option ℕ
  pub granted_by : Option ℕ
  pub expires_at : Option ℕ

-- `t <= now`.
abbrev pub reached : Option ℕ → ℕ → Bool
reached none now = false
reached (some t) now = leb t now

unfoldable pub is_expired : UserRoleAssignment → ℕ → Bool
is_expired a now = reached a.expires_at now
