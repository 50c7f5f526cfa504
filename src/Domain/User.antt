-- ===== src/Domain/User.antt =====
-- backend/crates/ferum-domain/src/models/user.rs. Times are milliseconds since the epoch; identifiers
-- (UUIDs) are numbers; `i32` counters are numbers, except where a sum may go below zero.
use ferum_board.Prelude.{
  ℕ, String, Text, Bool, true, false, Option, none, some, ltb, leb, if◌then◌else◌,
}

pub data TrustLevel : Type 0 where
  new basic member regular leader : TrustLevel

-- The discriminants of the enum, by which its order is derived.
abbrev pub rank : TrustLevel → ℕ
rank new = 0
rank basic = 1
rank member = 2
rank regular = 3
rank leader = 4

-- `a >= b` and `a < b` on trust levels.
abbrev pub trust_ge : TrustLevel → TrustLevel → Bool
trust_ge a b = leb (rank b) (rank a)

abbrev pub trust_lt : TrustLevel → TrustLevel → Bool
trust_lt a b = ltb (rank a) (rank b)

-- The fields of `User` that the modelled operations read or write.
pub record User : Type 0 where
  pub id : ℕ
  pub username : Text
  pub email : String
  pub is_email_verified : Bool
  pub password_hash : Option String
  pub trust_level : TrustLevel
  pub trust_score : ℕ
  pub post_count : ℕ
  pub days_visited : ℕ
  pub is_banned : Bool
  pub banned_until : Option ℕ
  pub warn_count : ℕ
  pub failed_login_count : ℕ
  pub locked_until : Option ℕ
  pub last_seen_at : Option ℕ

-- `t.map(|t| t > now).unwrap_or(d)`.
abbrev pub after_or : Option ℕ → ℕ → Bool → Bool
after_or none now d = d
after_or (some t) now d = ltb now t

unfoldable pub is_account_locked : User → ℕ → Bool
is_account_locked u now = after_or u.locked_until now false

unfoldable pub is_currently_banned : User → ℕ → Bool
is_currently_banned u now = if u.is_banned then after_or u.banned_until now true else false
