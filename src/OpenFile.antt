-- ===== src/OpenFile.antt =====
-- filesys/openfile.h, openfile.cc and synchdisk.cc: reads and writes of a file's bytes, over the sectors
-- of its header.
--
-- A Disk is the list of its sectors. SynchDisk holds its lock until the interrupt of the disk, so that
-- requests follow each other; a request transfers its sector at once. Positions and counts are natural
-- numbers that do not overflow an int. A buffer that `new` returns is an argument, the function of its
-- size.
pub mod Buffers
pub mod Reading
pub mod Writing
pub mod Ends
pub mod Updates
pub mod NewFile
pub mod Headers
use nach_osx.Prelude.{
  ltb, leb, ◌==◌, if◌then◌else◌, length, get_or, set, take, drop, overlay, ℤ, pos, negsuc, Outcome,
  ok, abort, ◌>>=◌, ◌>>◌, check, bounds, ℕ, zero, suc, ◌+◌, ◌-◌, ◌*◌, ◌/◌, Bool, not, ◌&&◌, ◌||◌,
  List, [], ◌∷◌, ◌++◌, map,
}
use nach_osx.Words.{int_word, word_int, to_bytes, from_bytes}
use nach_osx.FileSystem.{disk_sectors}
use nach_osx.FileHeader.{FileHeader, sector_size, num_direct, byte_to_sector, file_length}

abbrev pub Disk : Type 0
Disk = List (List ℕ)

-- bcopy(&source[from], &target[to], count)
pub copy_bytes : List ℕ → ℕ → ℕ → List ℕ → ℕ → Outcome (List ℕ)
copy_bytes source from count target to = do
  bounds (leb (from + count) (length source))
  bounds (leb (to + count) (length target))
  ok (overlay target to (take count (drop from source)))

abbrev pub sector_number : ℤ → Outcome ℕ
sector_number (pos s) = do check (ltb s disk_sectors); ok s
sector_number (negsuc s) = abort

-- SynchDisk::ReadSector into &buf[to].
pub read_sector : Disk → ℤ → List ℕ → ℕ → Outcome (List ℕ)
read_sector disk sector buf to = do
  s ← sector_number sector
  copy_bytes (get_or disk s []) 0 sector_size buf to

-- SynchDisk::WriteSector from &buf[from].
pub write_sector : Disk → ℤ → List ℕ → ℕ → Outcome Disk
write_sector disk sector buf from = do
  s ← sector_number sector
  bytes ← copy_bytes buf from sector_size (get_or disk s []) 0
  ok (set disk s bytes)

pub read_loop : ℕ → ℕ → ℕ → FileHeader → Disk → List ℕ → Outcome (List ℕ)
read_loop zero i first hdr disk buf = ok buf
read_loop (suc n) i first hdr disk buf = do
  sector ← byte_to_sector hdr (i * sector_size)
  buf' ← read_sector disk sector buf ((i - first) * sector_size)
  read_loop n (i + 1) first hdr disk buf'

pub write_loop : ℕ → ℕ → ℕ → FileHeader → Disk → List ℕ → Outcome Disk
write_loop zero i first hdr disk buf = ok disk
write_loop (suc n) i first hdr disk buf = do
  sector ← byte_to_sector hdr (i * sector_size)
  disk' ← write_sector disk sector buf ((i - first) * sector_size)
  write_loop n (i + 1) first hdr disk' buf

-- The request, cut at the end of the file; zero where nothing is to be done.
abbrev pub clipped : ℕ → ℕ → ℕ → ℕ
clipped file_len num_bytes position =
    if (num_bytes == 0) || leb file_len position
    then 0
    else if ltb file_len (position + num_bytes)
    then file_len - position
    else num_bytes

-- The early return of a request of which nothing is left.
abbrev pub answer : {A : Type 0} → ℕ → A → Outcome A → Outcome (ℕ × A)
answer count same served =
    if count == 0 then ok (0, same) else (do changed ← served; ok (count, changed))

abbrev pub last_sector : ℕ → ℕ → ℕ
last_sector position count = (position + count - 1) / sector_size

abbrev pub sector_count : ℕ → ℕ → ℕ
sector_count position count = 1 + last_sector position count - position / sector_size

-- ReadAt of a request that is not empty, into &into[to].
pub read_bytes : (ℕ → List ℕ) → FileHeader → Disk → List ℕ → ℕ → ℕ → ℕ → Outcome (List ℕ)
read_bytes fresh hdr disk into to count position = do
  let first = position / sector_size
  let num_sectors = sector_count position count
  buf ← read_loop num_sectors first first hdr disk (fresh (num_sectors * sector_size))
  copy_bytes buf (position - first * sector_size) count into to

pub read_at : (ℕ → List ℕ) → FileHeader → Disk → List ℕ → ℕ → ℕ → ℕ → Outcome (ℕ × List ℕ)
read_at fresh hdr disk into to num_bytes position =
    let count = clipped (file_length hdr) num_bytes position in
    answer count into (read_bytes fresh hdr disk into to count position)

abbrev pub first_aligned : ℕ → Bool
first_aligned position = position == position / sector_size * sector_size

abbrev pub last_aligned : ℕ → ℕ → Bool
last_aligned position count = position + count == (last_sector position count + 1) * sector_size

-- The partial sectors at the ends of what is written.
pub read_first : (ℕ → List ℕ) → FileHeader → Disk → List ℕ → ℕ → Outcome (ℕ × List ℕ)
read_first fresh hdr disk buf position =
    if first_aligned position
    then ok (0, buf)
    else read_at fresh hdr disk buf 0 sector_size (position / sector_size * sector_size)

pub read_last : (ℕ → List ℕ) → FileHeader → Disk → List ℕ → ℕ → ℕ → Outcome (ℕ × List ℕ)
read_last fresh hdr disk buf count position =
    let first = position / sector_size in
    let last = last_sector position count in
    if not (last_aligned position count) && (not (first == last) || first_aligned position)
    then read_at fresh hdr disk buf ((last - first) * sector_size) sector_size (last * sector_size)
    else ok (0, buf)

-- WriteAt of a request that is not empty; the three buffers are its own and those of the two calls of
-- ReadAt.
pub write_bytes :
    (ℕ → List ℕ) → (ℕ → List ℕ) → (ℕ → List ℕ) → FileHeader → Disk → List ℕ → ℕ → ℕ → Outcome Disk
write_bytes fresh fresh₁ fresh₂ hdr disk from count position = do
  let first = position / sector_size
  let num_sectors = sector_count position count
  (_, buf₁) ← read_first fresh₁ hdr disk (fresh (num_sectors * sector_size)) position
  (_, buf₂) ← read_last fresh₂ hdr disk buf₁ count position
  buf₃ ← copy_bytes from 0 count buf₂ (position - first * sector_size)
  write_loop num_sectors first first hdr disk buf₃

pub write_at :
    (ℕ → List ℕ)
    → (ℕ → List ℕ)
    → (ℕ → List ℕ)
    → FileHeader
    → Disk
    → List ℕ
    → ℕ
    → ℕ
    → Outcome (ℕ × Disk)
write_at fresh fresh₁ fresh₂ hdr disk from num_bytes position =
    let count = clipped (file_length hdr) num_bytes position in
    answer count disk (write_bytes fresh fresh₁ fresh₂ hdr disk from count position)

pub record OpenFile : Type 0 where
  pub hdr : FileHeader
  pub seek_position : ℕ

pub seek : OpenFile → ℕ → OpenFile
seek f position = record f { seek_position = position }

pub read : (ℕ → List ℕ) → OpenFile → Disk → List ℕ → ℕ → Outcome (ℕ × List ℕ × OpenFile)
read fresh f disk into num_bytes = do
  (result, into') ← read_at fresh f.hdr disk into 0 num_bytes f.seek_position
  ok (result, into', record f { seek_position = f.seek_position + result })

pub write :
    (ℕ → List ℕ)
    → (ℕ → List ℕ)
    → (ℕ → List ℕ)
    → OpenFile
    → Disk
    → List ℕ
    → ℕ
    → Outcome (ℕ × Disk × OpenFile)
write fresh fresh₁ fresh₂ f disk from num_bytes = do
  (result, disk') ← write_at fresh fresh₁ fresh₂ f.hdr disk from num_bytes f.seek_position
  ok (result, disk', record f { seek_position = f.seek_position + result })

-- Ints in memory: four bytes each, the low one first.
pub words_bytes : List ℕ → List ℕ
words_bytes [] = []
words_bytes (w ∷ ws) = to_bytes 4 w ++ words_bytes ws

pub bytes_words : ℕ → List ℕ → List ℕ
bytes_words zero bytes = []
bytes_words (suc n) bytes = from_bytes (take 4 bytes) ∷ bytes_words n (drop 4 bytes)

-- (char *)this of a FileHeader.
pub file_header_bytes : FileHeader → List ℕ
file_header_bytes h = words_bytes (h.num_bytes ∷ h.num_sectors ∷ map int_word h.data_sectors)

pub read_file_header : List ℕ → FileHeader
read_file_header bytes = record {
  num_bytes = from_bytes (take 4 bytes);
  num_sectors = from_bytes (take 4 (drop 4 bytes));
  data_sectors = map word_int (bytes_words num_direct (drop 8 bytes));
}

pub write_back : FileHeader → Disk → ℤ → Outcome Disk
write_back h disk sector = write_sector disk sector (file_header_bytes h) 0

-- FileHeader::FetchFrom into the memory of a header.
pub fetch_from : Disk → ℤ → List ℕ → Outcome FileHeader
fetch_from disk sector memory = do
  bytes ← read_sector disk sector memory 0
  ok (read_file_header bytes)

pub open_file : Disk → ℤ → List ℕ → Outcome OpenFile
open_file disk sector memory = do
  h ← fetch_from disk sector memory
  ok (record { hdr = h; seek_position = 0 })
