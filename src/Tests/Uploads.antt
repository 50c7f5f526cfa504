-- ===== src/Tests/Uploads.antt =====
-- Uploaded files and packages at concrete inputs.
use ferum_board.Prelude.{
  ℕ, ◌-◌, ◌*◌, ◌≤◌, ◌≡◌, ◌≢◌, refl, arith, Bool, ◌||◌, true, false, none, some, List, [], ◌∷◌, ◌++◌,
  ◌==◌, Text, any, length, total, update_rows,
}
use ferum_board.Domain.Error.{ok}
use ferum_board.Domain.AuthUser.{AuthUser}
use ferum_board.Domain.Forum.{hour}
use ferum_board.Store.{StoredFile}
use ferum_board.Exec.{World}
use ferum_board.Infra.Package.{
  FilePath, normal, parent_dir, Entry, Disk, extract, sanitize_slug, max_extracted_size,
}
use ferum_board.Infra.Package.Climb.{any_climbs}
use ferum_board.Infra.Package.Contained.{outside, size_inside, extract_contained}
use ferum_board.Infra.Package.Identifier.{validate_plugin_id-is_name}
use ferum_board.PostUseCase.Content.{keys_from}
use ferum_board.PostUseCase.Upload.{upload_attachment, upload_attachment_quota, files_since}
use ferum_board.Repo.Files
use ferum_board.Storage.{cas_key}
use ferum_board.Storage.Keys.{keys_from-cas_key}
use ferum_board.Text.{codes}
use ferum_board.ThreadUseCase.Thumbnails.{set_thumbnail}
use ferum_board.ThreadUseCase.ThumbnailRefs.{thumbnail_key, set_thumbnail-same}
use ferum_board.Tests.Data.{alice, forum, start, quiet, image_file}

abbrev digest : List ℕ → Text
digest _ = codes "0123456789abcdef0123456789abcdef"

abbrev a_gif : List ℕ
a_gif = codes "GIF89a......"

keys_from-cas_key_example :
    keys_from 0 (
      codes "/files/"
      ++ (cas_key digest (codes "post-attachments") a_gif "image/gif" ++ codes ") and more"))
    ≡ cas_key digest (codes "post-attachments") a_gif "image/gif" ∷ keys_from 0 (codes ") and more")
unfolding ferum_board.Storage.validate_image_content_type
keys_from-cas_key_example =
    keys_from-cas_key digest a_gif "image/gif" (codes ") and more") refl refl refl

abbrev uploader : AuthUser
uploader = record alice { permissions = "file.upload" ∷ []; category_permissions = [] }

abbrev uploaded : World
uploaded = (upload_attachment digest uploader a_gif "image/gif" quiet start).1

upload_attachment_quota_example :
    (length (files_since 1 (200 - 24 * hour) uploaded.db.files) ≤ 50)
    × (total (λ (f : StoredFile). f.size) (files_since 1 (200 - 24 * hour) uploaded.db.files)
        ≤ 100 * 1024 * 1024)
    × (length a_gif ≤ 8 * 1024 * 1024)
unfolding upload_attachment ferum_board.Domain.AuthUser.has_perm
    ferum_board.Domain.AuthUser.contains ferum_board.Exec.ask ferum_board.Exec.lift
    ferum_board.Domain.AuthUser.is_currently_banned ferum_board.Domain.AuthUser.meets_trust
    ferum_board.Exec.refuse_if ferum_board.Text.starts_with ferum_board.Exec.read total
    ferum_board.Exec.pure
upload_attachment_quota_example =
    upload_attachment_quota digest quiet start uploaded uploader a_gif "image/gif"
      (codes "/files/post-attachments/0123456789abcdef0123456789abcdef.gif") refl refl

abbrev thumbnail : Text
thumbnail = codes "thumbnails/0123456789abcdef0123456789abcdef.gif"

-- A thread with a thumbnail.
abbrev pictured : World
pictured = record start {
  db = record forum {
    files = record image_file { key = thumbnail } ∷ [];
    social = record forum.social { thumbnails = (10, thumbnail) ∷ [] };
  };
}

abbrev again : World
again = (set_thumbnail digest uploader 10 a_gif "image/gif" quiet pictured).1

set_thumbnail-same_example :
    (again.db.files ≡ update_rows (Files.has_key thumbnail) Files.plus_one pictured.db.files)
    × (thumbnail_key 10 again.db ≡ some thumbnail)
unfolding set_thumbnail ferum_board.Prelude.find_row ferum_board.Text.text_eq ferum_board.Exec.◌>>=◌
    ferum_board.Exec.ask ferum_board.Exec.lift ferum_board.Permission.can_upload
    ferum_board.Domain.AuthUser.is_currently_banned ferum_board.Domain.AuthUser.has_perm
    ferum_board.Domain.AuthUser.contains ferum_board.Domain.AuthUser.meets_trust
    ferum_board.Exec.refuse_if ferum_board.Text.starts_with ferum_board.Repo.Threads.find_by_id
    ferum_board.Exec.read ferum_board.Exec.pure
set_thumbnail-same_example =
    set_thumbnail-same digest quiet pictured again uploader 10 a_gif "image/gif"
      (codes "/files/" ++ thumbnail) refl refl refl

abbrev plugins : FilePath
plugins = normal (codes "plugins") ∷ []

-- The letters of the test.
abbrev alphanumeric : ℕ → Bool
alphanumeric c = c == b'a' || c == b'b'

abbrev plugin_dir : FilePath
plugin_dir = plugins ++ normal (codes "a.b") ∷ []

abbrev old_disk : Disk
old_disk = (normal (codes "etc") ∷ [], 7) ∷ (plugin_dir ++ normal (codes "old") ∷ [], 5) ∷ []

-- A manifest, a path out of the directory, and what would come after it.
abbrev archive : List Entry
archive =
    record { enclosed_name = some (normal (codes "plugin.toml") ∷ []); is_dir = false; size = 30 }
    ∷ record {
      enclosed_name = some (parent_dir ∷ normal (codes "etc") ∷ []);
      is_dir = false;
      size = 9;
    }
    ∷ []

extract_contained_example :
    (outside plugin_dir
        (extract alphanumeric (λ n. false) plugins (codes "a.b") 100 (ok archive) old_disk).1
      ≡ outside plugin_dir old_disk)
    × ((size_inside plugin_dir
            (extract alphanumeric (λ n. false) plugins (codes "a.b") 100 (ok archive) old_disk).1
          ≤ max_extracted_size)
        × (any_climbs
              (extract alphanumeric (λ n. false) plugins (codes "a.b") 100 (ok archive) old_disk).1
            ≡ false))
unfolding sanitize_slug total ferum_board.Infra.Package.path_starts_with ferum_board.Text.text_eq
extract_contained_example =
    extract_contained alphanumeric (λ n. false) plugins (codes "a.b") 100 (ok archive) old_disk
      (omega arith) refl refl refl

validate_plugin_id-is_name_example :
    (sanitize_slug alphanumeric (codes "a.b") ≡ codes "a.b")
    × (any (λ c. c == b'/') (codes "a.b") ≡ false)
    × (codes "a.b" ≢ [])
    × (codes "a.b" ≢ codes ".")
    × (codes "a.b" ≢ codes "..")
unfolding ferum_board.Infra.Package.validate_plugin_id ferum_board.Text.byte_len
validate_plugin_id-is_name_example = validate_plugin_id-is_name alphanumeric (codes "a.b") refl refl
