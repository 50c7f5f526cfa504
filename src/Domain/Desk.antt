-- ===== src/Domain/Desk.antt =====
-- backend/crates/ferum-domain/src/models/{tag,audit_log,webhook}.rs. The colour of a tag, the metadata of an
-- entry of the log, and the plugin and the times of a webhook are left out.
use ferum_board.Prelude.{ℕ, String, Text, Bool, Option, List}

pub record Tag : Type 0 where
  pub id : ℕ
  pub name : Text
  pub slug : Text
  pub created_by_id : Option ℕ

pub record AuditLog : Type 0 where
  pub id : ℕ
  pub actor_id : Option ℕ
  pub action : String
  pub target_type : String
  pub target_id : ℕ
  pub created_at : ℕ

pub record Webhook : Type 0 where
  pub id : ℕ
  pub url : Text
  pub events : List String
  pub secret : Option Text
  pub is_active : Bool
  pub failure_count : ℕ
