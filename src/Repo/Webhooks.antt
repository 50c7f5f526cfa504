-- ===== src/Repo/Webhooks.antt =====
-- backend/crates/ferum-infrastructure/src/repositories/webhook_repository.rs.
use ferum_board.Prelude.{
  ℕ, ◌+◌, String, Bool, true, false, not, ◌&&◌, Option, none, some, List, ◌∷◌, ◌==◌, Text, any,
  keep, find_row, update_rows, leb, str_eq, if◌then◌else◌,
}
use ferum_board.Domain.Error.{Result, ok, err, not_found}
use ferum_board.Domain.Desk.{Webhook}
use ferum_board.Store.{Db}
use ferum_board.Exec.{Exec, read, step, write, ◌>>=◌, ◌>>◌}
use ferum_board.Repo.Threads.{set}

-- Each field is changed where it is given; a secret is never taken away.
pub record UpdateWebhook : Type 0 where
  pub url : Option Text
  pub events : Option (List String)
  pub secret : Option Text
  pub is_active : Option Bool

abbrev pub has_id : ℕ → Webhook → Bool
has_id id h = h.id == id

abbrev pub update_row : ℕ → (Webhook → Webhook) → Db → Db
update_row id f db = record db { webhooks = update_rows (has_id id) f db.webhooks }

unfoldable pub find_by_id : ℕ → Exec (Option Webhook)
find_by_id id = read (λ db. ok (find_row (has_id id) db.webhooks))

-- The active webhooks that ask for an event.
unfoldable pub find_subscribed : String → Exec (List Webhook)
find_subscribed event_type =
    read (λ db. ok (keep (λ h. h.is_active && any (λ e. str_eq e event_type) h.events) db.webhooks))

abbrev pub new_webhook : Text → List String → Option Text → ℕ → Webhook
new_webhook url events secret id = record {
  id = id;
  url = url;
  events = events;
  secret = secret;
  is_active = true;
  failure_count = 0;
}

unfoldable pub create : Text → List String → Option Text → Exec Webhook
create url events secret = step (λ env n db.
    let h = new_webhook url events secret (env.fresh n) in
    ok (h, record db { webhooks = h ∷ db.webhooks }))

abbrev set_secret : Option Text → Option Text → Option Text
set_secret none old = old
set_secret (some s) old = some s

unfoldable pub patched : UpdateWebhook → Webhook → Webhook
patched upd h = record h {
  url = set upd.url h.url;
  events = set upd.events h.events;
  secret = set_secret upd.secret h.secret;
  is_active = set upd.is_active h.is_active;
}

abbrev updated : Option Webhook → ℕ → UpdateWebhook → Db → Result (Webhook × Db)
updated none id upd db = err not_found
updated (some h) id upd db = ok (patched upd h, update_row id (patched upd) db)

unfoldable pub update : ℕ → UpdateWebhook → Exec Webhook
unfolding patched
update id upd = step (λ env n db. updated (find_row (has_id id) db.webhooks) id upd db)

unfoldable pub delete : ℕ → Exec (Unit {0})
delete id = write (λ db. record db { webhooks = keep (λ h. not (has_id id h)) db.webhooks })

abbrev pub succeeded : Webhook → Webhook
succeeded h = record h { failure_count = 0 }

unfoldable pub record_success : ℕ → Exec (Unit {0})
record_success id = write (update_row id succeeded)

abbrev pub webhook_max_failures : ℕ
webhook_max_failures = 5

abbrev pub failed : Webhook → Webhook
failed h = record h { failure_count = h.failure_count + 1 }

abbrev pub disabled : Webhook → Webhook
disabled h = if leb webhook_max_failures h.failure_count then record h { is_active = false } else h

-- Two statements: the count, and the end of a webhook that has failed too often.
unfoldable pub record_failure : ℕ → Exec (Unit {0})
unfolding ◌>>=◌
record_failure id = write (update_row id failed) >> write (update_row id disabled)
