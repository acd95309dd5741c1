-- ===== src/FileSystem/Format.antt =====
-- The constructor of FileSystem, with `format` set, makes a consistent empty disk.
use nach_osx.Prelude.{
  ◌==◌, length, pos, ok, ℕ, suc, ◌+◌, ◌-◌, ◌<◌, ◌≡◌, refl, sym, ap, ◌∙◌, subst, true, false, none,
  List, [], ◌∷◌, arith,
}
use nach_osx.BitMap
use nach_osx.BitMap.{BitMap, bits_in_word, div_round_up}
use nach_osx.BitMap.Laws.{is_marked, IsValid, mark_lem}
use nach_osx.BitMap.Search.{create_lem}
use nach_osx.BitMap.Count.{free_bits, free_bits-mark, free_bits-empty}
use nach_osx.Directory
use nach_osx.Directory.{Directory, DirectoryEntry, file_name_max_len, free_all}
use nach_osx.Directory.Lookup.{lookup, Entries}
use nach_osx.FileHeader
use nach_osx.FileHeader.{FileHeader, num_direct}
use nach_osx.FileHeader.Allocation.{allocate-Filled}
use nach_osx.FileSystem.{
  Disk, disk_sectors, num_dir_entries, directory_file_size, free_map_file_size, fetch_free_map,
  fetch_directory, write_free_map, write_header, update_header, format,
}
use nach_osx.FileSystem.Accounting.{one_if, uses, file_uses, listed-Holds, count-Distinct}
use nach_osx.FileHeader.Sectors.{has, Distinct, Holds}
use nach_osx.FileSystem.Layout.{Files, Consistent, fetch-write_free_map}

-- Each entry has the ten bytes of its name.
abbrev pub Named : List DirectoryEntry → Type 0
Named [] = Unit {0}
Named (e ∷ es) = (length e.name ≡ file_name_max_len + 1) × Named es

module _ (f : ℕ → FileHeader) where
  pub Entries-free_all : (es : List DirectoryEntry) → Named es → Entries (free_all es)
  unfolding free_all
  Entries-free_all [] w = tt
  Entries-free_all (e ∷ es) w = (w.0, λ off. cc, Entries-free_all es w.1)

  pub Files-free_all : (es : List DirectoryEntry) → Files f (free_all es)
  unfolding free_all
  Files-free_all [] = tt
  Files-free_all (e ∷ es) = (λ off. cc, Files-free_all es)

  uses-free_all : (es : List DirectoryEntry) (j : ℕ) → uses f (free_all es) j ≡ 0
  unfolding free_all uses
  uses-free_all [] j = refl
  uses-free_all (e ∷ es) j = omega (arith, uses-free_all es j)

length-free_all : (es : List DirectoryEntry) → length (free_all es) ≡ length es
unfolding free_all
length-free_all [] = refl
length-free_all (e ∷ es) = ap suc (length-free_all es)

lookup-free_all : (es : List DirectoryEntry) (n : List ℕ) → lookup (free_all es) n ≡ none
unfolding free_all
lookup-free_all [] n = refl
lookup-free_all (e ∷ es) n = lookup-free_all es n

-- The sectors that the map has marked.
abbrev pub taken : Disk → ℕ → ℕ
taken d j = one_if (is_marked (fetch_free_map d) j)

-- What the two files of the file system use: their headers, in sectors 0 and 1, and the sectors that these
-- name.
pub own_files : Disk → ℕ → ℕ
own_files d j = file_uses (d.header 0) (pos 0) j + file_uses (d.header 1) (pos 1) j

-- `d` is a disk with no file: five sectors are in use, for the two headers and the two files.
pub record Formatted (d : Disk) : Type 0 where
  pub consistent : Consistent (own_files d) d
  pub map_size : (d.header 0).num_bytes ≡ 128
  pub directory_size : (d.header 1).num_bytes ≡ 200
  pub no_file : (n : List ℕ) → lookup d.directory_file n ≡ none
  pub reserved_headers : (taken d 0 ≡ 1) × (taken d 1 ≡ 1)
  pub free : free_bits (fetch_free_map d) ≡ disk_sectors - 5

-- The map with the five sectors in use, as it is written back.
record Reserved (memory memory' : FileHeader) (m : BitMap) (map_hdr dir_hdr : FileHeader)
    (m' : BitMap) : Type 0 where
  m₀ : BitMap
  m₁ : BitMap
  m₂ : BitMap
  marks : (BitMap.mark m (pos 0) ≡ ok m₀) × (BitMap.mark m₀ (pos 1) ≡ ok m₁)
  map_file : FileHeader.allocate memory m₁ free_map_file_size ≡ ok (true, map_hdr, m₂)
  dir_file : FileHeader.allocate memory' m₂ directory_file_size ≡ ok (true, dir_hdr, m')
  valid : IsValid m'
  size : m'.num_bits ≡ disk_sectors
  headers : (is_marked m' 0 ≡ true) × (is_marked m' 1 ≡ true)
  free : free_bits m' ≡ disk_sectors - 5
  sizes : (map_hdr.num_bytes ≡ 128) × (dir_hdr.num_bytes ≡ 200)
  owned :
      (j : ℕ)
      → j < disk_sectors
      → file_uses map_hdr (pos 0) j + file_uses dir_hdr (pos 1) j ≡ one_if (is_marked m' j)

-- A file whose header has the sectors `ss`, and is itself in sector `s`.
filled_uses :
    (h : FileHeader) (ss : List ℕ) (s j : ℕ)
    → h.num_sectors ≡ length ss
    → Holds h.data_sectors 0 ss
    → Distinct ss
    → file_uses h (pos s) j ≡ one_if (s == j) + one_if (has j ss)
unfolding file_uses
filled_uses h ss s j size held distinct =
    rw (size, listed-Holds ss 0 h.data_sectors j held, count-Distinct j ss distinct) refl

reserve :
    (memory memory' : FileHeader) (m : BitMap)
    → length memory.data_sectors ≡ num_direct
    → length memory'.data_sectors ≡ num_direct
    → IsValid m
    → m.num_bits ≡ disk_sectors
    → ((j : ℕ) → j < disk_sectors → is_marked m j ≡ false)
    → (map_hdr : FileHeader) × (dir_hdr : FileHeader) × (m' : BitMap) × Reserved memory memory' m
        map_hdr dir_hdr m'
unfolding div_round_up
reserve memory memory' m room room' v size clear =
    let (m₀, e₀, u₀) = mark_lem m 0 v (omega arith) in
    let (m₁, e₁, u₁) = mark_lem m₀ 1 u₀.valid (omega (arith, u₀.same_size)) in
    let left₀ = free_bits-mark 0 (omega arith) (clear 0 (omega arith)) u₀ in
    let left₁ =
      free_bits-mark 1 (omega (arith, u₀.same_size)) (ground (arith, u₀.bits 1, clear 1)) u₁ in
    let all = free_bits-empty m (λ j lt. clear j (omega arith)) in
    let (map_hdr, m₂, e₂, f₂) =
      allocate-Filled memory m₁ free_map_file_size u₁.valid room (omega arith)
        (omega (arith, left₀, left₁, all)) in
    let left₂ : free_bits m₁ ≡ 1 + free_bits m₂ = omega (arith, f₂.allocated.counted, f₂.count) in
    let (dir_hdr, m₃, e₃, f₃) =
      allocate-Filled memory' m₂ directory_file_size f₂.allocated.valid room' (omega arith)
        (omega (arith, left₀, left₁, left₂, all)) in
    let left₃ : free_bits m₂ ≡ 2 + free_bits m₃ = omega (arith, f₃.allocated.counted, f₃.count) in
    (
      map_hdr,
      dir_hdr,
      m₃,
      record {
        m₀ = m₀;
        m₁ = m₁;
        m₂ = m₂;
        marks = (e₀, e₁);
        map_file = e₂;
        dir_file = e₃;
        valid = f₃.allocated.valid;
        size =
            omega
              (arith, f₃.allocated.same_size, f₂.allocated.same_size, u₁.same_size, u₀.same_size);
        headers = (
          ground (arith, f₃.allocated.bits 0, f₂.allocated.bits 0, u₁.bits 0, u₀.bits 0),
          ground (arith, f₃.allocated.bits 1, f₂.allocated.bits 1, u₁.bits 1),
        );
        free = omega (arith, left₀, left₁, left₂, left₃, all);
        sizes = (f₂.bytes, f₃.bytes);
        owned = λ j lt.
            let n₂ =
              filled_uses map_hdr f₂.taken 0 j (f₂.sectors ∙ sym f₂.count) f₂.held
                f₂.allocated.distinct in
            let n₃ =
              filled_uses dir_hdr f₃.taken 1 j (f₃.sectors ∙ sym f₃.count) f₃.held
                f₃.allocated.distinct in
            ground (
              arith,
              n₂,
              n₃,
              f₃.allocated.bits j,
              f₂.allocated.bits j,
              f₃.allocated.fresh j,
              f₂.allocated.fresh j,
              u₁.bits j,
              u₀.bits j,
              clear j,
            );
      },
    )

-- Whatever the disk and the memories hold, formatting ends with no failed ASSERT, and leaves a consistent
-- disk with no file on it: the sectors that are marked are those of the two headers, of 128 and 200 bytes,
-- that are in sectors 0 and 1, and the sectors that these headers name, each used once; they are five.
pub format-Formatted :
    (map_memory : List ℕ) (directory_memory : List DirectoryEntry) (memory memory' : FileHeader)
    (d : Disk)
    → length map_memory ≡ div_round_up disk_sectors bits_in_word
    → length directory_memory ≡ num_dir_entries
    → Named directory_memory
    → length memory.data_sectors ≡ num_direct
    → length memory'.data_sectors ≡ num_direct
    → (d' : Disk) × (format map_memory directory_memory memory memory' d ≡ ok d') × Formatted d'
unfolding format own_files write_header fetch_free_map write_free_map fetch_directory
    Directory.create
format-Formatted map_memory directory_memory memory memory' d h₀ h₁ h₂ h₃ h₄ =
    let (m, e, v, size, clear) = create_lem map_memory disk_sectors h₀ in
    let (map_hdr, dir_hdr, m', r) = reserve memory memory' m h₃ h₄ v size clear in
    let d' : Disk = record {
      free_map_file = m'.map;
      directory_file = free_all directory_memory;
      header = update_header (update_header d.header 0 map_hdr) 1 dir_hdr;
    } in
    let same : fetch_free_map d' ≡ m' = fetch-write_free_map m' d r.valid r.size in
    (
      d',
      rw (e, r.marks.0, r.marks.1, r.map_file, r.dir_file),
      record {
        consistent = record {
          valid = subst IsValid (sym same) r.valid;
          directory = record {
            entries = Entries-free_all d'.header directory_memory h₂;
            filled = length-free_all directory_memory ∙ h₁;
          };
          files = Files-free_all d'.header directory_memory;
          account = λ j lt. omega (
            arith,
            uses-free_all d'.header directory_memory j,
            r.owned j lt ∙ ap (λ m. one_if (is_marked m j)) (sym same),
          );
        };
        map_size = r.sizes.0;
        directory_size = r.sizes.1;
        no_file = λ n. lookup-free_all directory_memory n;
        reserved_headers = (
          ap (λ m. one_if (is_marked m 0)) same ∙ ap one_if r.headers.0,
          ap (λ m. one_if (is_marked m 1)) same ∙ ap one_if r.headers.1,
        );
        free = ap free_bits same ∙ r.free;
      },
    )
