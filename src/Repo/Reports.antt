-- ===== src/Repo/Reports.antt =====
-- backend/crates/ferum-infrastructure/src/repositories/report_repository.rs, and `create` of
-- notification_repository.rs for the notice of a warning.
use ferum_board.Prelude.{
  ℕ, Bool, Option, none, some, Text, ◌==◌, ◌∷◌, find_row, update_rows, is_some, if◌then◌else◌,
}
use ferum_board.Domain.Error.{ok, err}
use ferum_board.Domain.Review.{Report, ReportStatus, pending}
use ferum_board.Store.{Db, Desk}
use ferum_board.Exec.{Exec, read, step, write, db_error}

abbrev pub has_id : ℕ → Report → Bool
has_id id r = r.id == id

abbrev pub row : ℕ → Db → Option Report
row id db = find_row (has_id id) db.desk.reports

unfoldable pub find_by_id : ℕ → Exec (Option Report)
find_by_id id = read (λ db. ok (row id db))

abbrev pub with_reports : Desk → Db → Db
with_reports desk db = record db { desk = desk }

abbrev new_report : (id reporter_id : ℕ) → Option ℕ → Option ℕ → Text → Report
new_report id reporter_id post_id thread_id reason = record {
  id = id;
  reporter_id = reporter_id;
  post_id = post_id;
  thread_id = thread_id;
  reason = reason;
  status = pending;
  moderator_notes = none;
  resolved_by_id = none;
  resolved_at = none;
}

unfoldable pub create : ℕ → Option ℕ → Option ℕ → Text → Exec Report
create reporter_id post_id thread_id reason = step (λ env n db.
    let r = new_report (env.fresh n) reporter_id post_id thread_id reason in
    ok (r, with_reports (record db.desk { reports = r ∷ db.desk.reports }) db))

-- `if let Some(notes)`.
abbrev notes_or : Option Text → Option Text → Option Text
notes_or none old = old
notes_or (some notes) old = some notes

abbrev pub closed : ReportStatus → ℕ → Option Text → ℕ → Report → Report
closed status by notes now r = record r {
  status = status;
  resolved_by_id = some by;
  resolved_at = some now;
  moderator_notes = notes_or notes r.moderator_notes;
}

-- An update of one row by its key fails where there is no row.
unfoldable pub update_status : ℕ → ReportStatus → ℕ → Option Text → Exec (Unit {0})
update_status id status resolved_by_id notes = step (λ env n db.
    if is_some (row id db)
    then ok (
      tt,
      with_reports
          (record db.desk {
            reports =
                update_rows (has_id id) (closed status resolved_by_id notes env.now)
                  db.desk.reports;
          })
          db,
    )
    else err db_error)

-- The notice of a warning.
unfoldable pub notify : ℕ → Text → Exec (Unit {0})
notify user_id reason =
    write (λ db. with_reports (record db.desk { notices = (user_id, reason) ∷ db.desk.notices }) db)
