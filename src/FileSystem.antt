-- ===== src/FileSystem.antt =====
-- filesys/filesys.h and filesys/filesys.cc: creating, opening and removing files. What a file header,
-- the map of free sectors and the directory look like on the disk is the matter of `WriteBack` and
-- `FetchFrom`; here the disk holds, for each of them, the value that was written last.
pub mod Accounting
pub mod Layout
pub mod Format
pub mod NewFile
pub mod Creating
pub mod Oversize
pub mod Removing
pub mod Histories
use nach_osx.Prelude.{
  ◌>>=◌, ◌>>◌, ltb, ◌==◌, if◌then◌else◌, ℤ, pos, negsuc, minus_one, int_eq, Outcome, ok, abort,
  check, ℕ, ◌*◌, ◌/◌, Bool, true, false, not, Option, none, some, List, map,
}
use nach_osx.BitMap
use nach_osx.BitMap.{BitMap, bits_in_word, div_round_up}
use nach_osx.Directory
use nach_osx.Directory.{Directory, DirectoryEntry}
use nach_osx.FileHeader
use nach_osx.FileHeader.{FileHeader}

-- NumSectors of machine/disk.h: 32 tracks of 32 sectors.
abbrev pub disk_sectors : ℕ
disk_sectors = 1024

abbrev pub free_map_sector : ℕ
free_map_sector = 0

abbrev pub directory_sector : ℕ
directory_sector = 1

-- NumSectors / BitsInByte
abbrev pub free_map_file_size : ℕ
free_map_file_size = disk_sectors / 8

abbrev pub num_dir_entries : ℕ
num_dir_entries = 10

-- sizeof(DirectoryEntry) is 20: a bool, an int at a multiple of 4, ten bytes, and two of padding.
abbrev pub directory_file_size : ℕ
directory_file_size = 20 * num_dir_entries

-- The words of freeMapFile, the entries of directoryFile, and the header in each sector.
pub record Disk : Type 0 where
  pub free_map_file : List ℕ
  pub directory_file : List DirectoryEntry
  pub header : ℕ → FileHeader

-- new BitMap(NumSectors) and FetchFrom(freeMapFile): the file has all the words of the map.
unfoldable pub fetch_free_map : Disk → BitMap
fetch_free_map d = record {
  num_bits = disk_sectors;
  num_words = div_round_up disk_sectors bits_in_word;
  map = d.free_map_file;
}

pub write_free_map : BitMap → Disk → Disk
write_free_map m d = record d { free_map_file = m.map }

-- new Directory(NumDirEntries) and FetchFrom(directoryFile)
unfoldable pub fetch_directory : Disk → Directory
fetch_directory d = record { table_size = num_dir_entries; table = d.directory_file }

pub write_directory : Directory → Disk → Disk
write_directory dir d = record d { directory_file = dir.table }

abbrev pub update_header : (ℕ → FileHeader) → ℕ → FileHeader → ℕ → FileHeader
update_header f s h t = if s == t then h else f t

-- hdr->WriteBack(sector): a sector outside the disk fails an ASSERT of Disk::WriteRequest.
pub write_header : FileHeader → ℤ → Disk → Outcome Disk
write_header h (negsuc s) d = abort
write_header h (pos s) d = do
  check (ltb s disk_sectors)
  ok (record d { header = update_header d.header s h })

-- hdr->FetchFrom(sector)
pub fetch_header : ℤ → Disk → Outcome FileHeader
fetch_header (negsuc s) d = abort
fetch_header (pos s) d = do check (ltb s disk_sectors); ok (d.header s)

-- The part of `Create` behind the directory's `Add`; `memory` is what `new FileHeader` holds.
create_allocated : FileHeader → ℤ → ℕ → BitMap → Directory → Disk → Outcome (Bool × Disk)
unfolding write_header write_directory write_free_map
create_allocated memory sector size free_map directory d = do
  (allocated, hdr, free_map') ← FileHeader.allocate memory free_map size
  if not allocated then ok (false, d) else do
    d' ← write_header hdr sector d
    ok (true, write_free_map free_map' (write_directory directory d'))

unfoldable pub create : FileHeader → List ℕ → ℕ → Disk → Outcome (Bool × Disk)
unfolding fetch_directory fetch_free_map create_allocated
create memory name size d =
    let directory = fetch_directory d in
    if not (int_eq (Directory.find directory name) minus_one) then ok (false, d) else do
      (sector, free_map) ← BitMap.find (fetch_free_map d)
      if int_eq sector minus_one
          then ok (false, d)
          else (let (added, directory') = Directory.add directory name sector in
              if not added
              then ok (false, d)
              else create_allocated memory sector size free_map directory' d)

open_sector : ℤ → Disk → Outcome (Option FileHeader)
unfolding fetch_header
open_sector (negsuc s) d = ok none
open_sector (pos s) d = do h ← fetch_header (pos s) d; ok (some h)

-- `some h` is an open file with the header `h`, `none` is NULL.
unfoldable pub open_file : List ℕ → Disk → Outcome (Option FileHeader)
unfolding fetch_directory open_sector
open_file name d = open_sector (Directory.find (fetch_directory d) name) d

unfoldable pub remove : List ℕ → Disk → Outcome (Bool × Disk)
unfolding fetch_directory fetch_free_map fetch_header write_directory write_free_map
remove name d =
    let directory = fetch_directory d in
    let sector = Directory.find directory name in
    if int_eq sector minus_one then ok (false, d) else do
      file_hdr ← fetch_header sector d
      free_map ← FileHeader.deallocate file_hdr (fetch_free_map d)
      free_map' ← BitMap.clear free_map sector
      ok (true, write_directory (Directory.remove directory name).1 (write_free_map free_map' d))

-- The constructor with `format` set. The memories are what `new` returns for the map, the
-- directory and each of the two headers.
pub format : List ℕ → List DirectoryEntry → FileHeader → FileHeader → Disk → Outcome Disk
unfolding write_header write_directory write_free_map
format map_memory directory_memory memory memory' d = do
  free_map ← BitMap.create map_memory disk_sectors
  m₀ ← BitMap.mark free_map (pos free_map_sector)
  m₁ ← BitMap.mark m₀ (pos directory_sector)
  (enough, map_hdr, m₂) ← FileHeader.allocate memory m₁ free_map_file_size
  check enough
  (enough', dir_hdr, m₃) ← FileHeader.allocate memory' m₂ directory_file_size
  check enough'
  d₁ ← write_header map_hdr (pos free_map_sector) d
  d₂ ← write_header dir_hdr (pos directory_sector) d₁
  ok (write_directory (Directory.create directory_memory num_dir_entries) (write_free_map m₃ d₂))
