-- ===== src/FileSystem/NewFile.antt =====
-- The disk with one more file is consistent: the account of `FileSystem::Create`.
use nach_osx.Prelude.{
  ◌==◌, length, pos, ℕ, ◌+◌, ◌≤◌, ◌<◌, ◌≡◌, refl, sym, ap, ◌∙◌, subst, Bool, true, false, ◌||◌,
  none, List, arith,
}
use mathlib.Core.Path.{ap₂}
use nach_osx.BitMap.{BitMap}
use nach_osx.BitMap.Laws.{is_marked, IsValid, Updates}
use nach_osx.Directory
use nach_osx.Directory.{Directory, DirectoryEntry, add_loop}
use nach_osx.Directory.Lookup.{lookup, IsDirectory}
use nach_osx.Directory.Update.{has_room, add-add_loop}
use nach_osx.FileHeader.{FileHeader, num_direct}
use nach_osx.FileHeader.Sectors.{has}
use nach_osx.FileHeader.Allocation.{Filled, sectors_for, sized}
use nach_osx.FileSystem.{
  Disk, disk_sectors, fetch_free_map, fetch_directory, write_free_map, update_header,
}
use nach_osx.FileSystem.Accounting.{
  one_if, file_uses, uses, count-Distinct, uses-update, uses-add_loop,
}
use nach_osx.FileSystem.Layout.{
  FileOk, Consistent, fetch-write_free_map, file_uses-count, Files-update, Files-add_loop,
}

-- The disk after a file with the header `h` in sector `s` was made.
abbrev pub with_file : Disk → List ℕ → ℕ → FileHeader → BitMap → Disk
with_file d name s h m = record {
  free_map_file = m.map;
  directory_file = (add_loop d.directory_file name (pos s)).1;
  header = update_header d.header s h;
}

module _ (reserved : ℕ → ℕ) (d : Disk) (name : List ℕ) (c : Consistent reserved d) (s : ℕ)
    (m₁ : BitMap) (s_lt : s < disk_sectors) (s_free : is_marked (fetch_free_map d) s ≡ false)
    (u : Updates (fetch_free_map d) s true m₁) (h : FileHeader) (m₂ : BitMap) (size : ℕ)
    (memory : FileHeader) (fits : sectors_for size ≤ num_direct)
    (room : length memory.data_sectors ≡ num_direct)
    (f : Filled (sized memory size) m₁ 0 (sectors_for size) h m₂) where
  header_unused : uses d.header d.directory_file s ≡ 0
  header_unused = ground (arith, c.account s s_lt, s_free)

  map_size : (fetch_free_map d).num_bits ≡ disk_sectors
  unfolding fetch_free_map
  map_size = refl

  pub size_left : m₂.num_bits ≡ disk_sectors
  size_left = f.allocated.same_size ∙ u.same_size ∙ map_size

  pub new_file : FileOk h
  new_file = record {
    data_list = f.taken;
    held = f.held;
    counted = f.count ∙ sym f.sectors;
    room = f.room ∙ room;
    fits = omega (arith, f.sectors);
    inside = λ j listed. ground (arith, f.allocated.fresh j, u.same_size, map_size);
  }

  new_bits :
      (j : ℕ) → is_marked m₂ j ≡ (has j f.taken || (s == j) || is_marked (fetch_free_map d) j)
  new_bits j = ground (arith, f.allocated.bits j, u.bits j)

  apart :
      (j : ℕ) → has j f.taken ≡ true → ((s == j) ≡ false) × (is_marked (fetch_free_map d) j ≡ false)
  apart j listed = ground (arith, f.allocated.fresh j listed, u.bits j)

  new_uses :
      (j : ℕ)
      → has_room d.directory_file ≡ true
      → uses (update_header d.header s h) (add_loop d.directory_file name (pos s)).1 j
        ≡ uses d.header d.directory_file j + (one_if (s == j) + one_if (has j f.taken))
  unfolding new_file
  new_uses j some_room =
      uses-add_loop (update_header d.header s h) d.directory_file name (pos s) j some_room
      ∙ ap₂ ◌+◌ (uses-update d.header s h d.directory_file j header_unused) (
          ap (λ k. file_uses k (pos s) j) at_self
          ∙ file_uses-count h s j new_file
          ∙ ap (◌+◌ (one_if (s == j))) (count-Distinct j f.taken f.allocated.distinct))
    where
      at_self : update_header d.header s h s ≡ h
      at_self = ground arith

  new_account :
      (j : ℕ)
      → j < disk_sectors
      → has_room d.directory_file ≡ true
      → reserved j + uses (update_header d.header s h) (add_loop d.directory_file name (pos s)).1 j
        ≡ one_if (is_marked m₂ j)
  new_account j lt some_room =
      rw (new_uses j some_room, new_bits j) (ground (arith, c.account j lt, apart j, s_free))

  pub made-Consistent :
      has_room d.directory_file ≡ true
      → lookup d.directory_file name ≡ none
      → IsDirectory (Directory.add (fetch_directory d) name (pos s)).1
      → Consistent reserved (with_file d name s h m₂)
  unfolding fetch_free_map fetch_directory write_free_map
  made-Consistent some_room new_name w = record {
    valid = subst IsValid (sym same_map) f.allocated.valid;
    directory =
        subst IsDirectory
          (ap (λ (x : Bool × Directory). x.1)
            (add-add_loop (fetch_directory d) name (pos s) new_name))
          w;
    files =
        Files-add_loop (update_header d.header s h) d.directory_file name (pos s)
          (Files-update d.header s h d.directory_file c.files header_unused)
          (s, refl, s_lt, subst FileOk (sym at_self) new_file);
    account = λ j lt. new_account j lt some_room ∙ ap (λ m. one_if (is_marked m j)) (sym same_map);
  }
    where
      same_map : fetch_free_map (with_file d name s h m₂) ≡ m₂
      same_map = fetch-write_free_map m₂ d f.allocated.valid size_left

      at_self : update_header d.header s h s ≡ h
      at_self = ground arith
