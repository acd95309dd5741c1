-- ===== src/FileSystem/Creating.antt =====
-- What `FileSystem::Create` does on each of its ways out.
use nach_osx.Prelude.{
  ltb, if◌then◌else◌, ltb→lt, lt→ltb, Bool-cases, Option-cases, length, ℤ, pos, minus_one, ok, ℕ,
  suc, ◌+◌, ◌≤◌, ◌<◌, ◌≡◌, refl, sym, ap, ◌∙◌, subst, ◌≢◌, ◌⊎◌, inl, inr, Bool, true, false, none,
  some, List, arith,
}
use nach_osx.BitMap
use nach_osx.BitMap.{BitMap, div_round_up, bits_in_word}
use nach_osx.BitMap.Laws.{is_marked, IsValid, Updates}
use nach_osx.BitMap.Search.{Found, full, first, find_lem}
use nach_osx.BitMap.Count.{free_bits, free_bits-full, free_bits-mark}
use nach_osx.Directory
use nach_osx.Directory.{Directory, DirectoryEntry, add_loop}
use nach_osx.Directory.Lookup.{lookup, same_name, IsDirectory, find-lookup}
use nach_osx.Directory.Update.{has_room, Added, refused, inserted, add-Added, add-add_loop}
use nach_osx.FileHeader
use nach_osx.FileHeader.{FileHeader, num_direct, sector_size}
use nach_osx.FileHeader.Allocation.{Filled, sectors_for, sized, allocate-Filled, allocate_refused}
use nach_osx.FileSystem.{
  Disk, disk_sectors, fetch_free_map, fetch_directory, write_free_map, write_header, create,
}
use nach_osx.FileSystem.Layout.{Consistent, lookup-Files, fetch-write_free_map, fetch_free_map_size}
use nach_osx.FileSystem.NewFile.{with_file, made-Consistent, size_left}

-- How `Create` ends.
pub data Created (reserved : ℕ → ℕ) (d : Disk) (name : List ℕ) (size : ℕ) (r : Bool) (d' : Disk)
    : Type 0 where
  -- the name is taken, the directory is full, or the header and the data do not fit the free sectors
  not_made :
      (lookup d.directory_file name ≢ none)
        ⊎ (has_room d.directory_file ≡ false)
        ⊎ (free_bits (fetch_free_map d) < suc (sectors_for size))
      → r ≡ false
      → d' ≡ d
      → Created reserved d name size r d'
  -- the name leads to a sector `s` whose header has the size; nothing else is changed
  made :
      (s : ℕ)
      → lookup d.directory_file name ≡ none
      → r ≡ true
      → Consistent reserved d'
      → ((n : List ℕ)
          → lookup d'.directory_file n
            ≡ (if same_name name n then some (pos s) else lookup d.directory_file n))
      → (d'.header s).num_bytes ≡ size
      → (d'.header s).num_sectors ≡ sectors_for size
      → ((t : ℕ) → t ≢ s → d'.header t ≡ d.header t)
      → free_bits (fetch_free_map d) ≡ suc (sectors_for size) + free_bits (fetch_free_map d')
      → Created reserved d name size r d'

abbrev Ends :
    (reserved : ℕ → ℕ) (memory : FileHeader) (name : List ℕ) (size : ℕ) (d : Disk) → Type 0
Ends reserved memory name size d =
    (r : Bool) × (d' : Disk) × (create memory name size d ≡ ok (r, d'))
    × Created reserved d name size r d'

module _ (reserved : ℕ → ℕ) (memory : FileHeader) (name : List ℕ) (size : ℕ) (d : Disk)
    (c : Consistent reserved d) (room : length memory.data_sectors ≡ num_direct)
    (fits : sectors_for size ≤ num_direct) where
  name_taken : (x : ℤ) → lookup d.directory_file name ≡ some x → Ends reserved memory name size d
  unfolding create fetch_directory
  name_taken x l =
      let (s, at, _, _) = lookup-Files d.header d.directory_file name x c.files l in
      (
        false,
        d,
        rw (find-lookup (fetch_directory d) name, l, at),
        not_made (inl (λ e. cc)) refl refl,
      )

  new_name :
      lookup d.directory_file name ≡ none → Directory.find (fetch_directory d) name ≡ minus_one
  unfolding fetch_directory
  new_name l = rw (find-lookup (fetch_directory d) name, l)

  disk_full :
      lookup d.directory_file name ≡ none
      → (m : BitMap) → BitMap.find (fetch_free_map d) ≡ ok (minus_one, m)
      → free_bits (fetch_free_map d) ≡ 0
      → Ends reserved memory name size d
  unfolding create
  disk_full l m e none_free =
      (false, d, rw (new_name l, e), not_made (inr (inr (omega arith))) refl refl)

  no_data :
      (s : ℕ) (m₁ : BitMap)
      → lookup d.directory_file name ≡ none
      → BitMap.find (fetch_free_map d) ≡ ok (pos s, m₁)
      → IsValid m₁
      → free_bits m₁ < sectors_for size
      → free_bits (fetch_free_map d) ≡ suc (free_bits m₁)
      → (added : Bool) (dir : Directory)
      → Directory.add (fetch_directory d) name (pos s) ≡ (added, dir)
      → Ends reserved memory name size d
  unfolding create
  no_data s m₁ l e v few one added dir ea = (
    false,
    d,
    rw (new_name l, e, ea, allocate_refused memory m₁ size v few) (ground arith),
    not_made (inr (inr (omega arith))) refl refl,
  )

  table_full :
      (s : ℕ) (m₁ : BitMap)
      → lookup d.directory_file name ≡ none
      → BitMap.find (fetch_free_map d) ≡ ok (pos s, m₁)
      → has_room d.directory_file ≡ false
      → (dir : Directory) → Directory.add (fetch_directory d) name (pos s) ≡ (false, dir)
      → Ends reserved memory name size d
  unfolding create
  table_full s m₁ l e no_room dir ea =
      (false, d, rw (new_name l, e, ea), not_made (inr (inl no_room)) refl refl)

  -- Everything is there: the name is new, and header, entry and data have their places.
  module _ (s : ℕ) (m₁ : BitMap) (h : FileHeader) (m₂ : BitMap)
      (l : lookup d.directory_file name ≡ none)
      (e : BitMap.find (fetch_free_map d) ≡ ok (pos s, m₁)) (s_lt : s < disk_sectors)
      (s_free : is_marked (fetch_free_map d) s ≡ false) (u : Updates (fetch_free_map d) s true m₁)
      (some_room : has_room d.directory_file ≡ true)
      (done : (Directory.add (fetch_directory d) name (pos s)).0 ≡ true)
      (w : IsDirectory (Directory.add (fetch_directory d) name (pos s)).1)
      (law : (n : List ℕ)
        → lookup (Directory.add (fetch_directory d) name (pos s)).1.table n
          ≡ (if same_name name n then some (pos s) else lookup d.directory_file n))
      (eh : FileHeader.allocate memory m₁ size ≡ ok (true, h, m₂))
      (f : Filled (sized memory size) m₁ 0 (sectors_for size) h m₂) where
    new_table : List DirectoryEntry
    new_table = (add_loop d.directory_file name (pos s)).1

    added : Directory.add (fetch_directory d) name (pos s) ≡ (
      (add_loop d.directory_file name (pos s)).0,
      record { table_size = 10; table = new_table },
    )
    unfolding new_table fetch_directory
    added = add-add_loop (fetch_directory d) name (pos s) l

    runs : create memory name size d ≡ ok (true, with_file d name s h m₂)
    unfolding create write_header new_table
    runs =
        let first_part : (add_loop d.directory_file name (pos s)).0 ≡ true =
          ap (λ (x : Bool × Directory). x.0) (sym added) ∙ done in
        rw (new_name l, e, added, first_part, eh, lt→ltb s disk_sectors s_lt)

    spent : free_bits (fetch_free_map d) ≡ suc (sectors_for size) + free_bits m₂
    spent = omega (
      arith,
      free_bits-mark s (omega (arith, fetch_free_map_size d)) s_free u,
      f.allocated.counted,
      f.count,
    )

    all_there : Ends reserved memory name size d
    unfolding new_table fetch_free_map write_free_map
    all_there = (
      true,
      with_file d name s h m₂,
      runs,
      made s l refl
          (made-Consistent reserved d name c s m₁ s_lt s_free u h m₂ size memory fits room f
            some_room l w)
          (λ n.
            subst
              (λ (x : Bool × Directory).
                lookup x.1.table n
                ≡ (if same_name name n then some (pos s) else lookup d.directory_file n))
              added (law n))
          (ground (arith, f.bytes)) (ground (arith, f.sectors)) (λ t other. ground arith)
          (spent ∙ ap (λ m. suc (sectors_for size) + free_bits m) (sym same_map)),
    )
      where
        same_map : fetch_free_map (with_file d name s h m₂) ≡ m₂
        same_map =
            fetch-write_free_map m₂ d f.allocated.valid
              (size_left reserved d name c s m₁ s_lt s_free u h m₂ size memory fits room f)

  -- `Create` for a name that the directory does not have, when the first clear bit is found.
  new_header :
      (s : ℕ) (m₁ : BitMap)
      → lookup d.directory_file name ≡ none
      → BitMap.find (fetch_free_map d) ≡ ok (pos s, m₁)
      → s < disk_sectors
      → is_marked (fetch_free_map d) s ≡ false
      → Updates (fetch_free_map d) s true m₁
      → Added
          (fetch_directory d)
          name
          (pos s)
          (Directory.add (fetch_directory d) name (pos s)).0
          (Directory.add (fetch_directory d) name (pos s)).1
      → Ends reserved memory name size d
  unfolding fetch_directory
  new_header s m₁ l e s_lt s_free u (refused (inl taken) r same) = absurd (taken l)
  new_header s m₁ l e s_lt s_free u (refused (inr no_room) r same) =
      table_full s m₁ l e no_room _ (λ i. (r i, (Directory.add (fetch_directory d) name (pos s)).1))
  new_header s m₁ l e s_lt s_free u (inserted _ some_room r w law) =
      elim (Bool-cases (ltb (free_bits m₁) (sectors_for size))) [
        | inl few ↦
            no_data s m₁ l e u.valid (ltb→lt _ _ few)
              (free_bits-mark s (omega (arith, fetch_free_map_size d)) s_free u) _ _ refl
        | inr enough ↦
            let (h, m₂, eh, f) = allocate-Filled memory m₁ size u.valid room fits (ground arith) in
            all_there s m₁ h m₂ l e s_lt s_free u some_room r w law eh f
      ]

  -- A file of at most NumDirect sectors: `Create` ends, without a failed ASSERT and inside its arrays.
  -- It refuses a name that is taken, a full directory and a size that does not fit the free sectors,
  -- and then leaves the disk as it was. Else the name leads to a header of that size, all other names
  -- and headers are as before, the free sectors are fewer by the header and the data, and every sector
  -- of the disk is still accounted for once.
  pub create-Created :
      (r : Bool) × (d' : Disk) × (create memory name size d ≡ ok (r, d'))
      × Created reserved d name size r d'
  create-Created = elim (Option-cases (lookup d.directory_file name)) [
    | inr (x, l) ↦ name_taken x l
    | inl l ↦ by_search l (find_lem (fetch_free_map d) c.valid)
  ]
    where
      by_search :
          lookup d.directory_file name ≡ none
          → (r : ℤ) × (m : BitMap) × (BitMap.find (fetch_free_map d) ≡ ok (r, m))
            × Found (fetch_free_map d) r m
          → Ends reserved memory name size d
      by_search l (r, m, e, full is _ all) =
          disk_full l m (e ∙ ap (λ x. ok (x, m)) is) (free_bits-full (fetch_free_map d) all)
      by_search l (r, m, e, first s is lt free _ u) =
          new_header s m l (e ∙ ap (λ x. ok (x, m)) is) (omega (arith, fetch_free_map_size d)) free
            u (add-Added (fetch_directory d) name (pos s) c.directory)
