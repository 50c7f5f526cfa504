-- ===== src/Infra/Package/Climb.antt =====
-- The paths that unpacking a plugin leaves on the disk hold no `..`, so that the directory that a path
-- names is the one that its components begin with.
use ferum_board.Prelude.{
  ℕ, ◌+◌, ◌≡◌, refl, Bool, true, false, not, Option, none, some, List, [], ◌∷◌, ◌++◌, Text, arith,
  any, keep, Bool-cases, inl, inr,
}
use ferum_board.Domain.Error.{Result, ok, err}
use ferum_board.Infra.Package.{
  Component, normal, cur_dir, parent_dir, root_dir, FilePath, Disk, Entry, path_eq,
  path_starts_with, join, remove_dir_all, write, create_dir_all, is_escape, target, placed,
  continue_with, extract_entry, extract_from, verify_manifest,
}

abbrev is_parent : Component → Bool
is_parent parent_dir = true
is_parent _ = false

-- A path that goes up.
abbrev pub climbs : FilePath → Bool
climbs p = any is_parent p

abbrev pub any_climbs : Disk → Bool
any_climbs disk = any (λ f. climbs f.0) disk

climbs-append : (p q : FilePath) → climbs p ≡ false → climbs q ≡ false → climbs (p ++ q) ≡ false
climbs-append [] q a b = b
climbs-append (c ∷ p) q a b = ground (arith, climbs-append p q)

climbs-of_escape : (p : FilePath) → any is_escape p ≡ false → climbs p ≡ false
climbs-of_escape [] h = refl
climbs-of_escape (normal t ∷ p) h = climbs-of_escape p h
climbs-of_escape (cur_dir ∷ p) h = climbs-of_escape p h
climbs-of_escape (parent_dir ∷ p) h = cc
climbs-of_escape (root_dir ∷ p) h = cc

climbs-keep :
    (q : FilePath × ℕ → Bool) (disk : Disk)
    → any_climbs disk ≡ false
    → any_climbs (keep q disk) ≡ false
climbs-keep q [] h = refl
climbs-keep q (f ∷ disk) h = ground (arith, climbs-keep q disk)

module _ (dir : FilePath) (plain : climbs dir ≡ false) where
  climbs-join : (raw : FilePath) → any is_escape raw ≡ false → climbs (join dir raw) ≡ false
  climbs-join [] h = climbs-append dir [] plain refl
  climbs-join (normal t ∷ p) h = climbs-append dir (normal t ∷ p) plain (climbs-of_escape p h)
  climbs-join (cur_dir ∷ p) h = climbs-append dir (cur_dir ∷ p) plain (climbs-of_escape p h)
  climbs-join (parent_dir ∷ p) h = cc
  climbs-join (root_dir ∷ p) h = cc

  climbs-target :
      (name : Option FilePath) (p : FilePath) → target dir name ≡ ok p → climbs p ≡ false
  climbs-target none p h = cc
  climbs-target (some raw) p h = elim (Bool-cases (any is_escape raw)) [
    | inl up ↦ ground (arith, h, up)
    | inr down ↦ ground (arith, h, down, climbs-join raw down)
  ]

  climbs-placed :
      (fails : Bool) (r : Result FilePath) (e : Entry) (extracted : ℕ) (disk : Disk)
      → ((p : FilePath) → r ≡ ok p → climbs p ≡ false)
      → any_climbs disk ≡ false
      → any_climbs (placed fails dir r e extracted disk).1 ≡ false
  unfolding write create_dir_all remove_dir_all
  climbs-placed fails (err x) e extracted disk g h = h
  climbs-placed true (ok p) e extracted disk g h = h
  climbs-placed false (ok p) e extracted disk g h =
      ground (arith, write-plain e.size, create-plain, removed)
    where
      write-plain : (n : ℕ) → any_climbs (write p n disk) ≡ false
      write-plain n = ground (arith, g p refl, climbs-keep (λ f. not (path_eq f.0 p)) disk h)

      create-plain : any_climbs (create_dir_all p disk) ≡ false
      create-plain = ground (arith, g p refl, h)

      removed : any_climbs (remove_dir_all dir disk) ≡ false
      removed = climbs-keep (λ f. not (path_starts_with f.0 dir)) disk h

  climbs-rest :
      (next : ℕ → Disk → Result (Unit {0}) × Disk) (r : Result ℕ) (disk : Disk)
      → any_climbs disk ≡ false
      → ((n : ℕ) (d : Disk) → any_climbs d ≡ false → any_climbs (next n d).1 ≡ false)
      → any_climbs (continue_with next r disk).1 ≡ false
  climbs-rest next (ok n) disk a h = h n disk a
  climbs-rest next (err x) disk a h = a

  climbs-from :
      (fails : ℕ → Bool) (i : ℕ) (es : List Entry) (extracted : ℕ) (disk : Disk)
      → any_climbs disk ≡ false
      → any_climbs (extract_from fails dir i es extracted disk).1 ≡ false
  unfolding extract_from extract_entry
  climbs-from fails i [] extracted disk h = h
  climbs-from fails i (e ∷ es) extracted disk h =
      let x = placed (fails i) dir (target dir e.enclosed_name) e extracted disk in
      climbs-rest (λ n d. extract_from fails dir (i + 1) es n d) x.0 x.1
        (climbs-placed (fails i) (target dir e.enclosed_name) e extracted disk
          (climbs-target e.enclosed_name) h)
        (λ n d. climbs-from fails (i + 1) es n d)

  verified-plain :
      (x : Result (Unit {0}) × Disk)
      → any_climbs x.1 ≡ false
      → any_climbs (verify_manifest dir x).1 ≡ false
  unfolding remove_dir_all
  verified-plain (err e, disk) h = h
  verified-plain (ok _, disk) h =
      ground (arith, h, climbs-keep (λ f. not (path_starts_with f.0 dir)) disk h)

  pub unpacked-plain :
      (fails : ℕ → Bool) (es : List Entry) (disk : Disk)
      → any_climbs disk ≡ false
      → any_climbs (verify_manifest dir (extract_from fails dir 0 es 0 (remove_dir_all dir disk))).1
        ≡ false
  unfolding remove_dir_all
  unpacked-plain fails es disk h =
      verified-plain (extract_from fails dir 0 es 0 (remove_dir_all dir disk)) (
        climbs-from fails 0 es 0 (remove_dir_all dir disk)
          (climbs-keep (λ f. not (path_starts_with f.0 dir)) disk h))

-- The plugin's directory goes up only where the directory of the plugins does.
pub climbs-plugin_dir :
    (plugins_dir : FilePath) (name : Text)
    → climbs plugins_dir ≡ false
    → climbs (plugins_dir ++ normal name ∷ []) ≡ false
climbs-plugin_dir plugins_dir name h = climbs-append plugins_dir (normal name ∷ []) h refl
