-- ===== src/FileSystem/Removing.antt =====
-- What `FileSystem::Remove` does on each of its ways out.
use nach_osx.Prelude.{
  ◌==◌, if◌then◌else◌, lt→ltb, Option-cases, pos, ok, ℕ, suc, ◌+◌, ◌<◌, ◌≡◌, refl, sym, ap, ◌∙◌,
  subst, inl, inr, Bool, true, false, none, some, List, arith,
}
use nach_osx.BitMap.{BitMap}
use nach_osx.BitMap.Laws.{is_marked, IsValid, Updates, clear_lem}
use nach_osx.BitMap.Count.{free_bits, free_bits-clear}
use nach_osx.Directory
use nach_osx.Directory.{Directory, DirectoryEntry}
use nach_osx.Directory.Lookup.{lookup, same_name, IsDirectory, find-lookup}
use nach_osx.Directory.Removal.{
  remove_first, Removed, not_there, removed, remove-Removed, remove-remove_first,
}
use nach_osx.FileHeader.Sectors.{has}
use nach_osx.FileHeader.Deallocation.{Owned, Freed, deallocate-Freed}
use nach_osx.FileSystem.{
  Disk, disk_sectors, fetch_free_map, fetch_directory, fetch_header, write_free_map, remove,
}
use nach_osx.FileSystem.Accounting.{
  one_if, count, uses, count-has, count-Distinct, Distinct-count, uses-remove_first,
}
use nach_osx.FileSystem.Layout.{
  FileOk, Consistent, fetch-write_free_map, fetch_free_map_size, file_uses-count, lookup-Files,
  Files-remove_first,
}

-- How `Remove` ends.
pub data Removal (reserved : ℕ → ℕ) (d : Disk) (name : List ℕ) (r : Bool) (d' : Disk) : Type 0 where
  not_found :
      lookup d.directory_file name ≡ none → r ≡ false → d' ≡ d → Removal reserved d name r d'
  -- the name is gone with its file: the header's sector and those of the data are free again
  gone :
      (s : ℕ)
      → lookup d.directory_file name ≡ some (pos s)
      → r ≡ true
      → Consistent reserved d'
      → ((n : List ℕ)
          → lookup d'.directory_file n
            ≡ (if same_name name n then none else lookup d.directory_file n))
      → d'.header ≡ d.header
      → free_bits (fetch_free_map d') ≡ suc (d.header s).num_sectors + free_bits (fetch_free_map d)
      → Removal reserved d name r d'

abbrev pub without_file : Disk → List ℕ → BitMap → Disk
without_file d name m = record d {
  free_map_file = m.map;
  directory_file = remove_first d.directory_file name;
}

module _ (reserved : ℕ → ℕ) (name : List ℕ) (d : Disk) (c : Consistent reserved d) (s : ℕ)
    (s_lt : s < disk_sectors) (v : FileOk (d.header s))
    (l : lookup d.directory_file name ≡ some (pos s)) where
  -- What the account says of a sector of the file.
  shares :
      (j : ℕ)
      → j < disk_sectors
      → reserved j
          + (uses d.header (remove_first d.directory_file name) j
              + (one_if (s == j) + count j v.data_list))
        ≡ one_if (is_marked (fetch_free_map d) j)
  shares j lt = omega (
    arith,
    c.account j lt,
    uses-remove_first d.header d.directory_file name (pos s) j l,
    file_uses-count (d.header s) s j v,
  )

  owned : Owned (fetch_free_map d) v.data_list
  owned = record {
    valid = c.valid;
    distinct = Distinct-count v.data_list (λ j h. ground (arith, shares j (v.inside j h)));
    inside = λ j h. omega (arith, v.inside j h, fetch_free_map_size d);
    marked = λ j h. ground (arith, shares j (v.inside j h), count-has j v.data_list h);
  }

  module _ (m₁ : BitMap) (freed : Freed (fetch_free_map d) v.data_list m₁) (m₂ : BitMap)
      (u : Updates m₁ s false m₂) where
    s_marked : (is_marked (fetch_free_map d) s ≡ true) × (has s v.data_list ≡ false)
    s_marked =
        (ground (arith, shares s s_lt), ground (arith, shares s s_lt, count-has s v.data_list))

    account_left :
        (j : ℕ)
        → j < disk_sectors
        → reserved j + uses d.header (remove_first d.directory_file name) j
          ≡ one_if (is_marked m₂ j)
    account_left j lt =
        ground (
          arith,
          shares j lt,
          u.bits j,
          freed.bits j,
          count-Distinct j v.data_list (owned.distinct),
        )

    size_left : m₂.num_bits ≡ disk_sectors
    size_left = omega (arith, u.same_size, freed.same_size, fetch_free_map_size d)

    same_map : fetch_free_map (without_file d name m₂) ≡ m₂
    unfolding fetch_free_map write_free_map
    same_map = fetch-write_free_map m₂ d u.valid size_left

    cleared-Consistent :
        IsDirectory (Directory.remove (fetch_directory d) name).1
        → Consistent reserved (without_file d name m₂)
    unfolding fetch_directory
    cleared-Consistent w = record {
      valid = subst IsValid (sym same_map) u.valid;
      directory =
          subst IsDirectory
            (ap (λ (x : Bool × Directory). x.1) (remove-remove_first (fetch_directory d) name l)) w;
      files = Files-remove_first d.header d.directory_file name c.files;
      account = λ j lt. account_left j lt ∙ ap (λ m. one_if (is_marked m j)) (sym same_map);
    }

    regained : free_bits m₂ ≡ suc (d.header s).num_sectors + free_bits (fetch_free_map d)
    regained = omega (
      arith,
      free_bits-clear s (omega (arith, freed.same_size, fetch_free_map_size d))
          (ground (arith, freed.bits s, s_marked)) u,
      freed.counted,
      v.counted,
    )

abbrev Ends : (ℕ → ℕ) → List ℕ → Disk → Type 0
Ends reserved name d =
    (r : Bool) × (d' : Disk) × (remove name d ≡ ok (r, d')) × Removal reserved d name r d'

module _ (reserved : ℕ → ℕ) (name : List ℕ) (d : Disk) (c : Consistent reserved d) where
  no_such_file : lookup d.directory_file name ≡ none → Ends reserved name d
  unfolding remove fetch_directory
  no_such_file l = (false, d, rw (find-lookup (fetch_directory d) name, l), not_found l refl refl)

  remove_file :
      (s : ℕ)
      → s < disk_sectors
      → FileOk (d.header s)
      → lookup d.directory_file name ≡ some (pos s)
      → Removed
          (fetch_directory d)
          name
          (Directory.remove (fetch_directory d) name).0
          (Directory.remove (fetch_directory d) name).1
      → Ends reserved name d
  unfolding remove fetch_directory fetch_header
  remove_file s s_lt v l (not_there missing _ _) = cc
  remove_file s s_lt v l (removed _ r w law) =
      let (m₁, e₁, freed) =
        deallocate-Freed (d.header s) (fetch_free_map d) v.data_list v.room v.fits v.counted v.held
          (owned reserved name d c s s_lt v l) in
      let (m₂, e₂, u) =
        clear_lem m₁ s freed.valid (omega (arith, freed.same_size, fetch_free_map_size d)) in
      let same = same_map reserved name d c s s_lt v l m₁ freed m₂ u in
      (
        true,
        without_file d name m₂,
        rw (
          find-lookup (fetch_directory d) name,
          l,
          lt→ltb s disk_sectors s_lt,
          e₁,
          e₂,
          remove-remove_first (fetch_directory d) name l,
        ),
        gone s l refl (cleared-Consistent reserved name d c s s_lt v l m₁ freed m₂ u w)
            (λ n.
              subst
                (λ (x : Bool × Directory).
                  lookup x.1.table n
                  ≡ (if same_name name n then none else lookup d.directory_file n))
                (remove-remove_first (fetch_directory d) name l) (law n))
            refl (ap free_bits same ∙ regained reserved name d c s s_lt v l m₁ freed m₂ u),
      )

  -- `Remove` on a consistent disk ends, and no ASSERT of `Deallocate` fails. A name that is not in the
  -- directory leaves the disk as it was. Else the name, with all that agree with it in nine characters,
  -- is gone, the sectors of its header and its data are free again, all other files are as before, and
  -- every sector of the disk is still accounted for once.
  pub remove-Removal :
      (r : Bool) × (d' : Disk) × (remove name d ≡ ok (r, d')) × Removal reserved d name r d'
  remove-Removal = elim (Option-cases (lookup d.directory_file name)) [
    | inl l ↦ no_such_file l
    | inr (x, l) ↦
        let (s, at, s_lt, v) = lookup-Files d.header d.directory_file name x c.files l in
        remove_file s s_lt v (l ∙ ap some at) (remove-Removed (fetch_directory d) name c.directory)
  ]
