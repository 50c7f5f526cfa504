-- ===== src/Infra/Package.antt =====
-- backend/crates/ferum-infrastructure/src/plugins/package_extractor.rs and `validate_plugin_id` of
-- manifest_loader.rs. The archive is the list of its entries as the ZIP library reads them, and the disk the
-- list of its files with their sizes, and of the directories made for an entry, at size zero. That a file
-- stands where a directory is to be made, or the other way round, is one of the failures that are given.
pub mod Climb
pub mod Paths
pub mod Contained
pub mod Identifier
use ferum_board.Prelude.{
  ℕ, ◌+◌, ◌-◌, ◌*◌, String, Bool, true, false, not, ◌&&◌, ◌||◌, Option, none, some, List, [], ◌∷◌,
  ◌++◌, ◌==◌, Text, any, all, keep, ltb, length, map, if◌then◌else◌,
}
use ferum_board.Domain.Error.{
  AppError, Result, ok, err, unprocessable_entity, internal, ◌>>=◌, ◌>>◌,
}
use ferum_board.Text.{codes, text_eq, is_empty, byte_len}

-- `std::path::Component`.
pub data Component : Type 0 where
  normal : Text → Component
  cur_dir parent_dir root_dir : Component

abbrev pub FilePath : Type 0
FilePath = List Component

unfoldable pub component_eq : Component → Component → Bool
component_eq (normal a) (normal b) = text_eq a b
component_eq cur_dir cur_dir = true
component_eq parent_dir parent_dir = true
component_eq root_dir root_dir = true
component_eq _ _ = false

-- `Path::starts_with`, by components.
unfoldable pub path_starts_with : FilePath → FilePath → Bool
unfolding component_eq
path_starts_with p [] = true
path_starts_with [] (_ ∷ _) = false
path_starts_with (a ∷ p) (b ∷ q) = component_eq a b && path_starts_with p q

unfoldable pub path_eq : FilePath → FilePath → Bool
unfolding component_eq
path_eq [] [] = true
path_eq (a ∷ p) (b ∷ q) = component_eq a b && path_eq p q
path_eq _ _ = false

-- `Path::join`: an absolute path replaces the one that it is joined to.
abbrev pub join : FilePath → FilePath → FilePath
join dir (root_dir ∷ p) = root_dir ∷ p
join dir p = dir ++ p

-- An entry: the path that the library holds for safe, whether it is a directory, and the size that it
-- decompresses to.
pub record Entry : Type 0 where
  pub enclosed_name : Option FilePath
  pub is_dir : Bool
  pub size : ℕ

abbrev pub Disk : Type 0
Disk = List (FilePath × ℕ)

unfoldable pub remove_dir_all : FilePath → Disk → Disk
unfolding path_starts_with
remove_dir_all dir disk = keep (λ f. not (path_starts_with f.0 dir)) disk

-- `fs::write`.
unfoldable pub write : FilePath → ℕ → Disk → Disk
unfolding path_eq
write p size disk = (p, size) ∷ keep (λ f. not (path_eq f.0 p)) disk

-- `fs::create_dir_all`; the directories above need no entry of their own.
unfoldable pub create_dir_all : FilePath → Disk → Disk
unfolding path_eq
create_dir_all p disk = if any (λ f. path_eq f.0 p) disk then disk else (p, 0) ∷ disk

-- `Path::exists`: an entry at the path or below it.
abbrev pub exists : FilePath → Disk → Bool
exists p disk = any (λ f. path_starts_with f.0 p) disk

abbrev pub max_package_size : ℕ
max_package_size = 50 * 1024 * 1024

abbrev pub max_extracted_size : ℕ
max_extracted_size = 200 * 1024 * 1024

abbrev pub max_files : ℕ
max_files = 1000

abbrev is_escape : Component → Bool
is_escape root_dir = true
is_escape parent_dir = true
is_escape _ = false

abbrev pub enclosed : Option FilePath → Result FilePath
enclosed none = err (unprocessable_entity "Archive contains unsafe path (path traversal attempt)")
enclosed (some p) =
    if any is_escape p
    then err (unprocessable_entity "Archive contains path traversal (../) — rejected")
    else ok p

-- Where an entry goes.
abbrev pub target : FilePath → Option FilePath → Result FilePath
target dir name = do
  raw_path ← enclosed name
  if path_starts_with (join dir raw_path) dir
      then ok (join dir raw_path)
      else err (unprocessable_entity "Archive entry escapes plugin directory")

-- What is left of the loop after an entry: the size extracted so far, and the disk.
abbrev pub after_entry : FilePath → FilePath → Entry → ℕ → Disk → Result ℕ × Disk
after_entry dir p e extracted disk =
    if e.is_dir
    then (ok extracted, create_dir_all p disk)
    else if ltb (max_extracted_size - extracted) e.size
    then (err (unprocessable_entity "Extracted size exceeds maximum"), remove_dir_all dir disk)
    else (ok (extracted + e.size), write p e.size disk)

-- One entry, which the file system may fail on; what it then leaves is what was there.
abbrev pub placed : (fails : Bool) → FilePath → Result FilePath → Entry → ℕ → Disk → Result ℕ × Disk
placed fails dir (err refusal) e extracted disk = (err refusal, disk)
placed true dir (ok p) e extracted disk = (err (internal "io"), disk)
placed false dir (ok p) e extracted disk = after_entry dir p e extracted disk

unfoldable pub extract_entry : (fails : Bool) → FilePath → Entry → ℕ → Disk → Result ℕ × Disk
unfolding path_starts_with remove_dir_all write create_dir_all
extract_entry fails dir e extracted disk =
    placed fails dir (target dir e.enclosed_name) e extracted disk

-- The loop ends at an error.
abbrev pub continue_with :
    (ℕ → Disk → Result (Unit {0}) × Disk) → Result ℕ → Disk → Result (Unit {0}) × Disk
continue_with next (ok total) disk = next total disk
continue_with next (err refusal) disk = (err refusal, disk)

-- The loop, where the environment says on which entries the file system fails.
unfoldable pub extract_from :
    (fails : ℕ → Bool) → FilePath → ℕ → List Entry → ℕ → Disk → Result (Unit {0}) × Disk
unfolding extract_entry
extract_from fails dir i [] extracted disk = (ok tt, disk)
extract_from fails dir i (e ∷ es) extracted disk =
    let (r, disk') = extract_entry (fails i) dir e extracted disk in
    continue_with (λ total d. extract_from fails dir (i + 1) es total d) r disk'

-- The last check.
abbrev pub verify_manifest : FilePath → Result (Unit {0}) × Disk → Result FilePath × Disk
verify_manifest dir (err refusal, disk) = (err refusal, disk)
verify_manifest dir (ok _, disk) =
    if exists (dir ++ normal (codes "plugin.toml") ∷ []) disk then (ok dir, disk) else (
      err (unprocessable_entity "Archive does not contain plugin.toml at root level"),
      remove_dir_all dir disk,
    )

abbrev pub last_is_dot : Text → Bool
last_is_dot [] = false
last_is_dot (c ∷ []) = c == b'.'
last_is_dot (_ ∷ d ∷ s) = last_is_dot (d ∷ s)

abbrev pub first_is_dot : Text → Bool
first_is_dot [] = false
first_is_dot (c ∷ _) = c == b'.'

-- Whether a text without separators is a component of its own.
abbrev pub is_name : Text → Bool
is_name t = not (is_empty t || (text_eq t (codes ".") || text_eq t (codes "..")))

-- The directory that `..` leads to.
unfoldable pub parent_of : FilePath → FilePath
parent_of [] = parent_dir ∷ []
parent_of (root_dir ∷ []) = root_dir ∷ []
parent_of (normal _ ∷ []) = []
parent_of (cur_dir ∷ []) = parent_dir ∷ []
parent_of (parent_dir ∷ []) = parent_dir ∷ parent_dir ∷ []
parent_of (c ∷ d ∷ p) = c ∷ parent_of (d ∷ p)

-- The directory of a plugin, `plugins_dir.join(name)`, as the file system takes it.
unfoldable pub plugin_dir : FilePath → Text → FilePath
unfolding parent_of
plugin_dir plugins_dir name =
    if is_name name
    then plugins_dir ++ normal name ∷ []
    else if text_eq name (codes "..")
    then parent_of plugins_dir
    else plugins_dir

module _ (is_alphanumeric : ℕ → Bool) where
  abbrev pub is_slug_char : ℕ → Bool
  is_slug_char c = is_alphanumeric c || (c == b'.' || (c == b'-' || c == b'_'))

  unfoldable pub sanitize_slug : Text → Text
  sanitize_slug slug = map (λ c. if is_slug_char c then c else b'_') slug

  unfoldable pub validate_plugin_id : Text → Result (Unit {0})
  validate_plugin_id id =
      if is_empty id || ltb 256 (byte_len id)
      then err (unprocessable_entity "Plugin ID must be between 1 and 256 characters")
      else if not (all is_slug_char id)
      then err (
          unprocessable_entity
            "Plugin ID must contain only alphanumeric characters, dots, hyphens, and underscores")
      else if first_is_dot id || last_is_dot id
      then err (unprocessable_entity "Plugin ID must not start or end with a dot")
      else ok tt

  -- The archive comes with the size of the package, or with the library's refusal.
  unfoldable pub extract :
      (fails : ℕ → Bool) → FilePath → Text → ℕ → Result (List Entry) → Disk → Result FilePath × Disk
  unfolding sanitize_slug plugin_dir extract_from path_starts_with remove_dir_all
  extract fails plugins_dir slug package_size archive disk =
      let dir = plugin_dir plugins_dir (sanitize_slug slug) in
      if ltb max_package_size package_size
      then (err (unprocessable_entity "Package too large"), disk)
      else elim archive [
        | err refusal ↦ (err refusal, disk)
        | ok entries ↦
            if ltb max_files (length entries)
            then (err (unprocessable_entity "Package contains too many files"), disk)
            else verify_manifest dir (extract_from fails dir 0 entries 0 (remove_dir_all dir disk))
      ]
