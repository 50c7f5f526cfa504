-- ===== src/PostUseCase/References/Sync.antt =====
-- What `sync_attachment_refs` writes where no call fails and storage is configured.
use ferum_board.Prelude.{◌≡◌, refl, ◌∙◌, ap, true, List, [], ◌∷◌, Text}
use ferum_board.Domain.Error.{ok}
use ferum_board.Store.{Env}
use ferum_board.Exec.{World, each, swallow, write, step, ask, ◌>>=◌, pure}
use ferum_board.Exec.Runs.{Quiet}
use ferum_board.Exec.Rules.{reads_rules}
use ferum_board.Exec.Keeps.{Keeps, keeps_rules, Keeps-write}
use ferum_board.Repo.Files.{increment_ref, decrement_ref}
use ferum_board.PostUseCase.{sync_attachment_refs, update_refs, difference}
use ferum_board.PostUseCase.Content.{extract_attachment_keys}
use ferum_board.PostUseCase.References.{inc_all, dec_all, synced}

Keeps-posts-increment : (key : Text) → Keeps (λ db. db.posts) (increment_ref key)
unfolding increment_ref
Keeps-posts-increment key = Keeps-write _ _ (λ db. refl)

Keeps-posts-decrement : (key : Text) → Keeps (λ db. db.posts) (decrement_ref key)
unfolding decrement_ref
Keeps-posts-decrement key = Keeps-write _ _ (λ db. refl)

pub Keeps-posts-sync : (old new : Text) → Keeps (λ db. db.posts) (sync_attachment_refs old new)
unfolding sync_attachment_refs
Keeps-posts-sync old new =
    search (keeps_rules, reads_rules, Keeps-posts-increment, Keeps-posts-decrement) depth 20

module _ (env : Env) (q : Quiet env) where
  increments :
      (ks : List Text) (w : World)
      → ((each (λ key. swallow (increment_ref key)) ks env w).0 ≡ ok tt)
        × ((each (λ key. swallow (increment_ref key)) ks env w).1.db.files ≡ inc_all ks w.db.files)
  unfolding each swallow increment_ref write step ◌>>=◌ inc_all pure
  increments [] w = (refl, refl)
  increments (k ∷ ks) w = rw (q w.calls) (increments ks _)

  decrements :
      (ks : List Text) (w : World)
      → ((each (λ key. swallow (decrement_ref key)) ks env w).0 ≡ ok tt)
        × ((each (λ key. swallow (decrement_ref key)) ks env w).1.db.files ≡ dec_all ks w.db.files)
  unfolding each swallow decrement_ref write step ◌>>=◌ dec_all pure
  decrements [] w = (refl, refl)
  decrements (k ∷ ks) w = rw (q w.calls) (decrements ks _)

  update_refs_lem :
      (old_keys new_keys : List Text) (w : World)
      → (update_refs old_keys new_keys env w).1.db.files
        ≡ dec_all (difference old_keys new_keys) (inc_all (difference new_keys old_keys) w.db.files)
  unfolding ◌>>=◌
  update_refs_lem old_keys new_keys w = rw (increments (difference new_keys old_keys) w).0 (
      (decrements (difference old_keys new_keys) _).1
      ∙ ap (dec_all (difference old_keys new_keys)) (increments (difference new_keys old_keys) w).1)

  pub sync_files :
      (old new : Text) (w : World)
      → env.has_storage ≡ true
      → (sync_attachment_refs old new env w).1.db.files ≡ synced old new w.db.files
  unfolding sync_attachment_refs synced ask ◌>>=◌
  sync_files old new w h =
      simp h (update_refs_lem (extract_attachment_keys old) (extract_attachment_keys new) w)
