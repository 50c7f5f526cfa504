-- ===== src/Infra/Package/Contained.antt =====
-- What unpacking a plugin does to the disk.
use ferum_board.Prelude.{
  ℕ, ◌+◌, ◌-◌, ◌≤◌, ◌≡◌, refl, sym, ◌∙◌, subst, Bool, true, false, not, Option, List, [], ◌∷◌, ◌++◌,
  Text, arith, keep, total, ltb, length, Bool-cases, inl, inr, if◌then◌else◌,
}
use ferum_board.Domain.Error.{Result, ok, err, unprocessable_entity, ◌>>=◌}
use ferum_board.Infra.Package.Paths.{path_eq→eq}
use ferum_board.Infra.Package.Climb.{climbs, any_climbs, unpacked-plain, climbs-plugin_dir}
use ferum_board.Infra.Package.{
  normal, FilePath, Disk, Entry, path_starts_with, path_eq, join, remove_dir_all, write,
  create_dir_all, target, enclosed, placed, continue_with, extract_entry, extract_from,
  verify_manifest, extract, plugin_dir, is_name, sanitize_slug, max_extracted_size,
  max_package_size, max_files,
}

module _ (dir : FilePath) where
  abbrev is_inside : FilePath × ℕ → Bool
  is_inside f = path_starts_with f.0 dir

  -- The sizes of the files below the directory.
  abbrev pub size_inside : Disk → ℕ
  size_inside disk = total (λ (f : FilePath × ℕ). f.1) (keep (λ f. path_starts_with f.0 dir) disk)

  -- The files elsewhere.
  abbrev pub outside : Disk → Disk
  outside disk = keep (λ f. not (path_starts_with f.0 dir)) disk

  outside-remove : (disk : Disk) → outside (remove_dir_all dir disk) ≡ outside disk
  unfolding remove_dir_all
  outside-remove [] = refl
  outside-remove (f ∷ disk) = ground (arith, outside-remove disk)

  size-remove : (disk : Disk) → size_inside (remove_dir_all dir disk) ≡ 0
  unfolding remove_dir_all total
  size-remove [] = refl
  size-remove (f ∷ disk) = ground (arith, size-remove disk)

  module _ (p : FilePath) (below : path_starts_with p dir ≡ true) where
    inside_too : (q : FilePath) → path_eq q p ≡ true → path_starts_with q dir ≡ true
    inside_too q h = subst (λ x. path_starts_with x dir ≡ true) (sym (path_eq→eq q p h)) below

    outside-others : (disk : Disk) → outside (keep (λ f. not (path_eq f.0 p)) disk) ≡ outside disk
    outside-others [] = refl
    outside-others (f ∷ disk) = ground (arith, inside_too f.0, outside-others disk)

    outside-write : (size : ℕ) (disk : Disk) → outside (write p size disk) ≡ outside disk
    unfolding write
    outside-write size disk = ground (arith, below, outside-others disk)

  outside-create :
      (p : FilePath)
      → path_starts_with p dir ≡ true
      → (disk : Disk) → outside (create_dir_all p disk) ≡ outside disk
  unfolding create_dir_all
  outside-create p below disk = ground (arith, below)

  size-create :
      (p : FilePath) (disk : Disk) → size_inside (create_dir_all p disk) ≡ size_inside disk
  unfolding create_dir_all total
  size-create p disk = ground arith

  size-keep : (q : FilePath × ℕ → Bool) (disk : Disk) → size_inside (keep q disk) ≤ size_inside disk
  unfolding total
  size-keep q [] = omega arith
  size-keep q (f ∷ disk) = ground (arith, size-keep q disk)

  size-write :
      (p : FilePath) (size : ℕ) (disk : Disk)
      → size_inside (write p size disk) ≤ size + size_inside disk
  unfolding write total
  size-write p size disk = ground (arith, size-keep (λ f. not (path_eq f.0 p)) disk)

  -- A target stands below the directory.
  target-below :
      (name : Option FilePath) (p : FilePath)
      → target dir name ≡ ok p
      → path_starts_with p dir ≡ true
  target-below name p h = below (enclosed name) h
    where
      below :
          (r : Result FilePath)
          → (r >>= λ raw.
              if path_starts_with (join dir raw) dir
              then ok (join dir raw)
              else err (unprocessable_entity "Archive entry escapes plugin directory"))
            ≡ ok p
          → path_starts_with p dir ≡ true
      below (ok raw) k = ground (arith, k)
      below (err e) k = cc

  outside-placed :
      (fails : Bool) (r : Result FilePath) (e : Entry) (extracted : ℕ) (disk : Disk)
      → ((p : FilePath) → r ≡ ok p → path_starts_with p dir ≡ true)
      → outside (placed fails dir r e extracted disk).1 ≡ outside disk
  outside-placed fails (err x) e extracted disk below = refl
  outside-placed true (ok p) e extracted disk below = refl
  outside-placed false (ok p) e extracted disk below = ground (
    arith,
    outside-remove disk,
    outside-write p (below p refl) e.size disk,
    outside-create p (below p refl) disk,
  )

  outside-rest :
      (next : ℕ → Disk → Result (Unit {0}) × Disk) (r : Result ℕ) (disk : Disk)
      → ((n : ℕ) (d : Disk) → outside (next n d).1 ≡ outside d)
      → outside (continue_with next r disk).1 ≡ outside disk
  outside-rest next (ok n) disk h = h n disk
  outside-rest next (err x) disk h = refl

  pub outside-from :
      (fails : ℕ → Bool) (i : ℕ) (es : List Entry) (extracted : ℕ) (disk : Disk)
      → outside (extract_from fails dir i es extracted disk).1 ≡ outside disk
  unfolding extract_from extract_entry
  outside-from fails i [] extracted disk = refl
  outside-from fails i (e ∷ es) extracted disk =
      let x = placed (fails i) dir (target dir e.enclosed_name) e extracted disk in
      outside-rest (λ n d. extract_from fails dir (i + 1) es n d) x.0 x.1
        (λ n d. outside-from fails (i + 1) es n d)
      ∙ outside-placed (fails i) (target dir e.enclosed_name) e extracted disk
          (target-below e.enclosed_name)

  -- What is extracted so far bounds the directory, and is bounded itself.
  abbrev Bounded : Result ℕ → Disk → Type 0
  Bounded (ok n) disk = (size_inside disk ≤ n) × (n ≤ max_extracted_size)
  Bounded (err _) disk = size_inside disk ≤ max_extracted_size

  Bounded-placed :
      (fails : Bool) (r : Result FilePath) (e : Entry) (extracted : ℕ) (disk : Disk)
      → size_inside disk ≤ extracted
      → extracted ≤ max_extracted_size
      → (λ (x : Result ℕ × Disk). Bounded x.0 x.1) (placed fails dir r e extracted disk)
  Bounded-placed fails (err x) e extracted disk a b = omega (arith, a, b)
  Bounded-placed true (ok p) e extracted disk a b = omega (arith, a, b)
  Bounded-placed false (ok p) e extracted disk a b = elim (Bool-cases e.is_dir) [
    | inl d ↦ rw d (omega (arith, size-create p disk, a), b)
    | inr f ↦ rw f (elim (Bool-cases (ltb (max_extracted_size - extracted) e.size)) [
      | inl big ↦ rw big (omega (arith, size-remove disk))
      | inr fits ↦
          rw fits (omega (arith, size-write p e.size disk, a), small e.size extracted fits b)
    ])
  ]
    where
      small :
          (n extracted : ℕ)
          → ltb (max_extracted_size - extracted) n ≡ false
          → extracted ≤ max_extracted_size
          → extracted + n ≤ max_extracted_size
      small n extracted h b = ground arith

  size-rest :
      (next : ℕ → Disk → Result (Unit {0}) × Disk) (r : Result ℕ) (disk : Disk)
      → Bounded r disk
      → ((n : ℕ) (d : Disk)
          → size_inside d ≤ n
          → n ≤ max_extracted_size
          → size_inside (next n d).1 ≤ max_extracted_size)
      → size_inside (continue_with next r disk).1 ≤ max_extracted_size
  size-rest next (ok n) disk b h = h n disk b.0 b.1
  size-rest next (err x) disk b h = b

  pub size-from :
      (fails : ℕ → Bool) (i : ℕ) (es : List Entry) (extracted : ℕ) (disk : Disk)
      → size_inside disk ≤ extracted
      → extracted ≤ max_extracted_size
      → size_inside (extract_from fails dir i es extracted disk).1 ≤ max_extracted_size
  unfolding extract_from extract_entry
  size-from fails i [] extracted disk a b = omega (arith, a, b)
  size-from fails i (e ∷ es) extracted disk a b =
      let x = placed (fails i) dir (target dir e.enclosed_name) e extracted disk in
      size-rest (λ n d. extract_from fails dir (i + 1) es n d) x.0 x.1
        (Bounded-placed (fails i) (target dir e.enclosed_name) e extracted disk a b)
        (λ n d. size-from fails (i + 1) es n d)

  verified-outside :
      (x : Result (Unit {0}) × Disk) → outside (verify_manifest dir x).1 ≡ outside x.1
  verified-outside (err e, disk) = refl
  verified-outside (ok _, disk) = ground (arith, outside-remove disk)

  verified-size :
      (x : Result (Unit {0}) × Disk)
      → size_inside x.1 ≤ max_extracted_size
      → size_inside (verify_manifest dir x).1 ≤ max_extracted_size
  verified-size (err e, disk) h = h
  verified-size (ok _, disk) h = ground (arith, size-remove disk)

  -- The extraction into the emptied directory.
  pub unpacked :
      (fails : ℕ → Bool) (es : List Entry) (disk : Disk)
      → (outside (verify_manifest dir (extract_from fails dir 0 es 0 (remove_dir_all dir disk))).1
          ≡ outside disk)
        × (size_inside
              (verify_manifest dir (extract_from fails dir 0 es 0 (remove_dir_all dir disk))).1
            ≤ max_extracted_size)
  unpacked fails es disk = (
    verified-outside (extract_from fails dir 0 es 0 (remove_dir_all dir disk))
        ∙ outside-from fails 0 es 0 (remove_dir_all dir disk)
        ∙ outside-remove disk,
    verified-size (extract_from fails dir 0 es 0 (remove_dir_all dir disk)) (
        size-from fails 0 es 0 (remove_dir_all dir disk) (omega (arith, size-remove disk))
          (omega arith)),
  )

-- Whatever a package holds and however its extraction ends, no path outside of the plugin's directory
-- below that of the plugins changes, the directory holds at most 200 MB, and no path on the disk goes up by
-- `..`, where the last two held before, the directory of the plugins does not go up either, and the plugin's
-- name, once sanitized, is neither empty nor `.` nor `..`.
pub extract_contained :
    (is_alphanumeric : ℕ → Bool) (fails : ℕ → Bool) (plugins_dir : FilePath) (slug : Text)
    (package_size : ℕ) (archive : Result (List Entry)) (disk : Disk)
    → size_inside (plugins_dir ++ normal (sanitize_slug is_alphanumeric slug) ∷ []) disk
      ≤ max_extracted_size
    → is_name (sanitize_slug is_alphanumeric slug) ≡ true
    → climbs plugins_dir ≡ false
    → any_climbs disk ≡ false
    → (outside
          (plugins_dir ++ normal (sanitize_slug is_alphanumeric slug) ∷ [])
          (extract is_alphanumeric fails plugins_dir slug package_size archive disk).1
        ≡ outside (plugins_dir ++ normal (sanitize_slug is_alphanumeric slug) ∷ []) disk)
      × ((size_inside
              (plugins_dir ++ normal (sanitize_slug is_alphanumeric slug) ∷ [])
              (extract is_alphanumeric fails plugins_dir slug package_size archive disk).1
            ≤ max_extracted_size)
          × (any_climbs (extract is_alphanumeric fails plugins_dir slug package_size archive disk).1
              ≡ false))
unfolding extract plugin_dir
extract_contained is_alphanumeric fails plugins_dir slug package_size (err e) disk h n k l =
    elim (Bool-cases (ltb max_package_size package_size)) [
      | inl big ↦ rw big (refl, (h, l))
      | inr small ↦ rw small (refl, (h, l))
    ]
extract_contained is_alphanumeric fails plugins_dir slug package_size (ok es) disk h n k l =
    let dir = plugins_dir ++ normal (sanitize_slug is_alphanumeric slug) ∷ [] in
    let x = unpacked dir fails es disk in
    elim (Bool-cases (ltb max_package_size package_size)) [
      | inl big ↦ rw big (refl, (h, l))
      | inr small ↦ rw small (elim (Bool-cases (ltb max_files (length es))) [
        | inl many ↦ rw many (refl, (h, l))
        | inr few ↦ rw few (
            rw n (
              x.0,
              (
                x.1,
                unpacked-plain dir
                    (climbs-plugin_dir plugins_dir (sanitize_slug is_alphanumeric slug) k) fails es
                    disk l,
              ),
            ))
      ])
    ]
