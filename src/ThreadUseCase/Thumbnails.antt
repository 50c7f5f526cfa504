-- ===== src/ThreadUseCase/Thumbnails.antt =====
-- `set_thumbnail` and `remove_thumbnail` of
-- backend/crates/ferum-application/src/usecases/thread_usecase.rs. A job for the collector of unused files is
-- a call that may fail and writes nothing here.
use ferum_board.Prelude.{
  ℕ, ◌*◌, String, not, ◌||◌, Option, none, some, List, ◌++◌, ◌==◌, Text, ltb, length, if◌then◌else◌,
}
use ferum_board.Domain.Error.{AppError, Result, ok, err, unprocessable_entity}
use ferum_board.Domain.AuthUser.{AuthUser}
use ferum_board.Exec.{
  Exec, World, pure, lift, fail, ask, attempt, swallow, write, refuse_if, ◌>>=◌, ◌>>◌,
}
use ferum_board.Permission
use ferum_board.Repo.Files
use ferum_board.Repo.Threads
use ferum_board.Storage.{cas_key, validate_image_content_type, validate_image_magic}
use ferum_board.Text.{codes, text_eq}
use ferum_board.ThreadUseCase.{find_live_thread, require_author_or_mod}

abbrev pub max_thumbnail_bytes : ℕ
max_thumbnail_bytes = 10 * 1024 * 1024

-- `jobs.enqueue(GcStorageKey)`.
unfoldable pub enqueue_gc : Exec (Unit {0})
enqueue_gc = write (λ db. db)

unfoldable pub collect_if_unused : ℕ → Exec (Unit {0})
unfolding enqueue_gc
collect_if_unused remaining = if remaining == 0 then enqueue_gc else pure tt

-- The checks of `set_thumbnail`.
unfoldable pub prepare_set : AuthUser → ℕ → List ℕ → String → Exec (Unit {0})
unfolding find_live_thread require_author_or_mod validate_image_content_type validate_image_magic
prepare_set actor thread_id bytes content_type = do
  now ← ask (λ env. env.now)
  lift (Permission.can_upload actor now)
  refuse_if (not (validate_image_content_type content_type) || not (validate_image_magic bytes))
      (unprocessable_entity "thumbnail must be jpeg, png, webp, or gif")
  refuse_if (ltb max_thumbnail_bytes (length bytes))
      (unprocessable_entity "thumbnail exceeds 10 MB size limit")
  thread ← find_live_thread thread_id
  lift (require_author_or_mod actor thread)

-- A failed release counts as one reference that is left.
abbrev left_or_one : Option ℕ → ℕ
left_or_one none = 1
left_or_one (some n) = n

-- What is done where the thumbnail cannot be set: its reference is taken back.
unfoldable pub take_back : Text → AppError → Exec (Unit {0})
unfolding Files.release_ref collect_if_unused
take_back key e = do
  remaining ← attempt (Files.release_ref key)
  swallow (collect_if_unused (left_or_one remaining))
  fail e

abbrev pub set_or_take_back : Text → Result (Unit {0}) × World → Exec (Unit {0})
set_or_take_back key (ok x, u) env w = (ok x, u)
set_or_take_back key (err e, u) env w = take_back key e env u

-- The write of the thumbnail, whose failure is answered by `take_back`.
unfoldable pub store_key : ℕ → Text → Exec (Unit {0})
unfolding Threads.set_thumbnail take_back
store_key thread_id key env w =
    set_or_take_back key (Threads.set_thumbnail thread_id key env w) env w

-- The release of the key that the thread had before, if it is another one.
unfoldable pub release_old : Text → Option Text → Exec (Unit {0})
unfolding Files.release_ref collect_if_unused
release_old key none = pure tt
release_old key (some old) =
    if text_eq old key then pure tt else (Files.release_ref old >>= collect_if_unused)

unfoldable pub set_thumbnail : (digest : List ℕ → Text) → AuthUser → ℕ → List ℕ → String → Exec Text
unfolding prepare_set cas_key Files.upsert_and_ref Threads.find_thumbnail_key store_key release_old
set_thumbnail digest actor thread_id bytes content_type = do
  prepare_set actor thread_id bytes content_type
  let key = cas_key digest (codes "thumbnails") bytes content_type
  Files.upsert_and_ref key content_type (length bytes) (some actor.id)
  old_key ← Threads.find_thumbnail_key thread_id
  store_key thread_id key
  release_old key old_key
  pure (codes "/files/" ++ key)

abbrev release_key : Option Text → Exec (Unit {0})
release_key none = pure tt
release_key (some key) = Files.release_ref key >>= collect_if_unused

unfoldable pub remove_thumbnail : AuthUser → ℕ → Exec (Unit {0})
unfolding find_live_thread require_author_or_mod Threads.find_thumbnail_key Files.release_ref
    collect_if_unused Threads.remove_thumbnail
remove_thumbnail actor thread_id = do
  now ← ask (λ env. env.now)
  lift (Permission.require_not_banned actor now)
  thread ← find_live_thread thread_id
  lift (require_author_or_mod actor thread)
  key ← Threads.find_thumbnail_key thread_id
  release_key key
  Threads.remove_thumbnail thread_id
