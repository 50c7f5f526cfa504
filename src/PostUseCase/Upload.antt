-- ===== src/PostUseCase/Upload.antt =====
-- `upload_attachment` of backend/crates/ferum-application/src/usecases/post_usecase.rs, and the quota of
-- its uploads.
use ferum_board.Prelude.{
  ℕ, ◌+◌, ◌-◌, ◌*◌, ◌≤◌, ◌<◌, ◌≡◌, sym, subst, ap, String, Bool, false, not, ◌&&◌, ◌||◌, some, List,
  ◌∷◌, ◌++◌, Text, arith, ltb, leb, length, keep, total, if◌then◌else◌, Bool-cases, inl, inr,
}
use ferum_board.Domain.Error.{ok, forbidden, unprocessable_entity, internal}
use ferum_board.Domain.Perm
use ferum_board.Domain.AuthUser.{AuthUser, has_perm}
use ferum_board.Domain.Forum.{hour}
use ferum_board.Store.{Db, Env, StoredFile}
use ferum_board.Exec.{World, Exec, pure, lift, ask, read, step, refuse_if, ◌>>=◌, ◌>>◌}
use ferum_board.Exec.Rules.{
  Reads, Reads-if, Reads-pure, Reads-bind, Reads-ask, Reads-read, Reads-refuse_if,
}
use ferum_board.Exec.Runs.{bind-ok, refuse_if-ok, step-ok, Reads-ok, pure-ok}
use ferum_board.Permission.{can_upload}
use ferum_board.Repo.Files
use ferum_board.Repo.Files.{UploadUsage}
use ferum_board.Storage.{cas_key, validate_image_content_type, validate_image_magic}
use ferum_board.Text.{codes}

abbrev pub max_post_attachment_bytes : ℕ
max_post_attachment_bytes = 8 * 1024 * 1024

abbrev pub upload_quota_window_hours : ℕ
upload_quota_window_hours = 24

abbrev pub max_uploads_per_window : ℕ
max_uploads_per_window = 50

abbrev pub max_upload_bytes_per_window : ℕ
max_upload_bytes_per_window = 100 * 1024 * 1024

-- Staff have no quota.
abbrev pub is_exempt : AuthUser → Bool
is_exempt actor = has_perm actor Perm.admin_users || has_perm actor Perm.mod_warn

abbrev pub over_quota : UploadUsage → ℕ → Bool
over_quota usage size =
    leb max_uploads_per_window usage.file_count
    || ltb max_upload_bytes_per_window (usage.total_bytes + size)

-- The refusal of an upload beyond the quota.
unfoldable pub check_quota : AuthUser → ℕ → Exec (Unit {0})
unfolding ◌>>=◌ Files.usage_since
check_quota actor size =
    if is_exempt actor
    then pure tt
    else (ask (λ env. env.now) >>= (λ now.
        Files.usage_since actor.id (now - upload_quota_window_hours * hour)
        >>= (λ usage. refuse_if (over_quota usage size) (forbidden "upload_quota_exceeded"))))

-- The checks of `upload_attachment`.
unfoldable pub prepare_upload : AuthUser → List ℕ → String → Exec (Unit {0})
unfolding ◌>>=◌ can_upload validate_image_content_type validate_image_magic
prepare_upload actor bytes content_type = do
  now ← ask (λ env. env.now)
  lift (can_upload actor now)
  refuse_if (not (validate_image_content_type content_type))
      (unprocessable_entity "attachment must be jpeg, png, webp, or gif")
  refuse_if (ltb max_post_attachment_bytes (length bytes))
      (unprocessable_entity "attachment exceeds 8 MB size limit")
  refuse_if (not (validate_image_magic bytes))
      (unprocessable_entity "file content does not match a supported image format")
  has_storage ← ask (λ env. env.has_storage)
  refuse_if (not has_storage) (internal "post attachment storage not configured")

-- The key is staged: no post refers to it yet.
unfoldable pub upload_attachment : (digest : List ℕ → Text) → AuthUser → List ℕ → String → Exec Text
unfolding ◌>>=◌ prepare_upload check_quota cas_key Files.upsert_staged
upload_attachment digest actor bytes content_type = do
  prepare_upload actor bytes content_type
  check_quota actor (length bytes)
  let key = cas_key digest (codes "post-attachments") bytes content_type
  Files.upsert_staged key content_type (length bytes) (some actor.id)
  pure (codes "/files/" ++ key)

-- The files of a user that were stored since a time.
abbrev pub files_since : (id since : ℕ) → List StoredFile → List StoredFile
files_since id since fs = keep (λ f. Files.is_by id f.uploaded_by_id && leb since f.created_at) fs

Reads-check_quota : (actor : AuthUser) (size : ℕ) → Reads (check_quota actor size)
unfolding check_quota Files.usage_since
Reads-check_quota actor size = Reads-if (is_exempt actor) (pure tt) _ (Reads-pure tt) (
    Reads-bind (ask (λ env. env.now)) _ (Reads-ask _) (λ now.
      Reads-bind (Files.usage_since actor.id (now - upload_quota_window_hours * hour)) _
        (Reads-read _) (λ u. Reads-refuse_if _ _)))

-- What a passed check says of the uploads so far.
check_quota-ok :
    (env : Env) (w : World) {v : World} {x : Unit {0}} (actor : AuthUser) (size : ℕ)
    → is_exempt actor ≡ false
    → check_quota actor size env w ≡ (ok x, v)
    → (length (files_since actor.id (env.now - upload_quota_window_hours * hour) w.db.files) < 50)
      × (total
              (λ (f : StoredFile). f.size)
              (files_since actor.id (env.now - upload_quota_window_hours * hour) w.db.files)
            + size
          ≤ max_upload_bytes_per_window)
unfolding check_quota Files.usage_since ◌>>=◌ ask read step refuse_if lift
check_quota-ok env w actor size plain h = ground (arith, h, plain)

-- Staging a file adds it at most once to the uploads of its user.
upsert-grows :
    (env : Env) (w : World) {v : World} {x : Unit {0}} (id since size : ℕ) (key : Text)
    (ct : String)
    → Files.upsert_staged key ct size (some id) env w ≡ (ok x, v)
    → (length (files_since id since v.db.files) ≤ length (files_since id since w.db.files) + 1)
      × (total (λ (f : StoredFile). f.size) (files_since id since v.db.files)
          ≤ total (λ (f : StoredFile). f.size) (files_since id since w.db.files) + size)
unfolding Files.upsert_staged total
upsert-grows env w {v} id since size key ct h =
    let k = step-ok env w _ h in
    elim (Bool-cases (Files.stored key w.db)) [
      | inl old ↦
          let e : v.db.files ≡ w.db.files = ground (arith, k, old) in
          rw e (omega arith, omega arith)
      | inr new ↦
          let e : v.db.files ≡ Files.new_file key ct size 0 (some id) env.now ∷ w.db.files =
            ground (arith, k, new) in
          rw e (ground arith, ground arith)
    ]

prepare_upload-ok :
    (env : Env) (w : World) {v : World} {x : Unit {0}} (actor : AuthUser) (bytes : List ℕ)
    (ct : String)
    → prepare_upload actor bytes ct env w ≡ (ok x, v)
    → length bytes ≤ max_post_attachment_bytes
unfolding prepare_upload
prepare_upload-ok env w actor bytes ct h =
    let (now, u1, h1, k1) = bind-ok env (ask (λ e. e.now)) _ w h in
    let (x2, u2, h2, k2) = bind-ok env (lift (can_upload actor now)) _ u1 k1 in
    let (x3, u3, h3, k3) =
      bind-ok env (refuse_if (not (validate_image_content_type ct)) _) _ u2 k2 in
    let (x4, u4, h4, k4) =
      bind-ok env (refuse_if (ltb max_post_attachment_bytes (length bytes)) _) _ u3 k3 in
    at_most (length bytes) (refuse_if-ok env u3 (ltb max_post_attachment_bytes (length bytes)) _ h4)
  where
    at_most : (n : ℕ) → ltb max_post_attachment_bytes n ≡ false → n ≤ max_post_attachment_bytes
    at_most n h = ground arith

-- The usage after a file, from the usage before it.
abbrev Within : (id since : ℕ) → List StoredFile → Type 0
Within id since fs =
    (length (files_since id since fs) ≤ 50)
    × (total (λ (f : StoredFile). f.size) (files_since id since fs) ≤ 100 * 1024 * 1024)

stored-Within :
    (env : Env) (w : World) {v : World} {x : Unit {0}} (id since size : ℕ) (key : Text)
    (ct : String)
    → Files.upsert_staged key ct size (some id) env w ≡ (ok x, v)
    → length (files_since id since w.db.files) < 50
    → total (λ (f : StoredFile). f.size) (files_since id since w.db.files) + size
      ≤ 100 * 1024 * 1024
    → Within id since v.db.files
stored-Within env w id since size key ct h few little =
    let (more, bigger) = upsert-grows env w id since size key ct h in
    (omega (arith, more, few), omega (arith, bigger, little))

-- After an upload of an attachment that succeeds, a user who is not staff has at most fifty files that were
-- stored in the last day, of at most 100 MB in all, and the upload itself has at most 8 MB.
pub upload_attachment_quota :
    (digest : List ℕ → Text) (env : Env) (w v : World) (actor : AuthUser) (bytes : List ℕ)
    (ct : String) (url : Text)
    → is_exempt actor ≡ false
    → upload_attachment digest actor bytes ct env w ≡ (ok url, v)
    → (length (files_since actor.id (env.now - 24 * hour) v.db.files) ≤ 50)
      × (total (λ (f : StoredFile). f.size) (files_since actor.id (env.now - 24 * hour) v.db.files)
          ≤ 100 * 1024 * 1024)
      × (length bytes ≤ 8 * 1024 * 1024)
unfolding upload_attachment
upload_attachment_quota digest env w v actor bytes ct url plain h =
    let (x1, u1, h1, k1) = bind-ok env (prepare_upload actor bytes ct) _ w h in
    let (x2, u2, h2, k2) = bind-ok env (check_quota actor (length bytes)) _ u1 k1 in
    let (x3, u3, h3, k3) =
      bind-ok env (Files.upsert_staged _ ct (length bytes) (some actor.id)) _ u2 k2 in
    let since = env.now - 24 * hour in
    let size = length bytes in
    let (few, little) = check_quota-ok env u1 actor size plain h2 in
    let same : u1.db.files ≡ u2.db.files =
      sym (ap (λ (d : Db). d.files) (Reads-ok env u1 _ (Reads-check_quota actor size) h2)) in
    let last : u3.db.files ≡ v.db.files = sym (ap (λ (d : Db). d.files) (pure-ok env u3 _ k3).1) in
    let after =
      stored-Within env u2 actor.id since size _ ct h3
        (subst (λ fs. length (files_since actor.id since fs) < 50) same few)
        (subst
          (λ fs.
            total (λ (f : StoredFile). f.size) (files_since actor.id since fs) + size
            ≤ 100 * 1024 * 1024)
          same little) in
    let (a, b) = subst (Within actor.id since) last after in
    (a, b, prepare_upload-ok env w actor bytes ct h1)
