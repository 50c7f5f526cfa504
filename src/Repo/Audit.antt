-- ===== src/Repo/Audit.antt =====
-- `append` of backend/crates/ferum-infrastructure/src/repositories/audit_log_repository.rs, and
-- `user_action` of backend/crates/ferum-domain/src/models/audit_log.rs.
use ferum_board.Prelude.{ℕ, String, some, ◌∷◌}
use ferum_board.Domain.Error.{ok}
use ferum_board.Domain.Desk.{AuditLog}
use ferum_board.Store.{Db}
use ferum_board.Exec.{Exec, step, swallow}

abbrev pub user_action : (id now actor_id : ℕ) → (action target_type : String) → ℕ → AuditLog
user_action id now actor_id action target_type target_id = record {
  id = id;
  actor_id = some actor_id;
  action = action;
  target_type = target_type;
  target_id = target_id;
  created_at = now;
}

abbrev pub with_entry : AuditLog → Db → Db
with_entry log db = record db { desk = record db.desk { audit = log ∷ db.desk.audit } }

unfoldable pub append : (actor_id : ℕ) → (action target_type : String) → ℕ → Exec (Unit {0})
append actor_id action target_type target_id = step (λ env n db.
    ok
      (tt, with_entry (user_action (env.fresh n) env.now actor_id action target_type target_id) db))

-- `append(…).await.ok()`.
unfoldable pub log : (actor_id : ℕ) → (action target_type : String) → ℕ → Exec (Unit {0})
unfolding append
log actor_id action target_type target_id = swallow (append actor_id action target_type target_id)
