-- ===== src/FileHeader.antt =====
-- filesys/filehdr.h and filesys/filehdr.cc: the header of a file, a fixed table of the sectors that
-- hold its data. The disk is not part of this module: reading and writing a header is not modelled.
pub mod Sectors
pub mod Allocation
pub mod Deallocation
use nach_osx.Prelude.{
  ◌>>=◌, ◌>>◌, ltb, if◌then◌else◌, length, get_or, set, ℤ, minus_one, Outcome, ok, check, bounds, ℕ,
  zero, suc, ◌+◌, ◌-◌, ◌*◌, ◌/◌, Bool, true, false, List,
}
use nach_osx.BitMap.{BitMap, div_round_up, clear, test, find, num_clear}

-- machine/disk.h
abbrev pub sector_size : ℕ
sector_size = 128

-- NumDirect: two of the 32 words of a sector are the two sizes.
abbrev pub num_direct : ℕ
num_direct = (sector_size - 2 * 4) / 4

pub record FileHeader : Type 0 where
  pub num_bytes : ℕ
  pub num_sectors : ℕ
  pub data_sectors : List ℤ

-- dataSectors[i], inside the array only.
get_sector : FileHeader → ℕ → Outcome ℤ
get_sector h i = do bounds (ltb i (length h.data_sectors)); ok (get_or h.data_sectors i minus_one)

put_sector : FileHeader → ℕ → ℤ → Outcome FileHeader
put_sector h i s = do
  bounds (ltb i (length h.data_sectors))
  ok (record h { data_sectors = set h.data_sectors i s })

allocate_loop : ℕ → ℕ → FileHeader → BitMap → Outcome (FileHeader × BitMap)
allocate_loop zero i h free_map = ok (h, free_map)
allocate_loop (suc n) i h free_map = do
  (s, free_map') ← find free_map
  h' ← put_sector h i s
  allocate_loop n (i + 1) h' free_map'

unfoldable pub allocate : FileHeader → BitMap → ℕ → Outcome (Bool × FileHeader × BitMap)
unfolding allocate_loop put_sector
allocate h free_map file_size = do
  let sectors = div_round_up file_size sector_size
  let h' = record h { num_bytes = file_size; num_sectors = sectors }
  free ← num_clear free_map
  if ltb free sectors
      then ok (false, h', free_map)
      else do (h'', free_map') ← allocate_loop sectors 0 h' free_map; ok (true, h'', free_map')

deallocate_loop : ℕ → ℕ → FileHeader → BitMap → Outcome BitMap
deallocate_loop zero i h free_map = ok free_map
deallocate_loop (suc n) i h free_map = do
  s ← get_sector h i
  used ← test free_map s
  check used
  free_map' ← clear free_map s
  deallocate_loop n (i + 1) h free_map'

pub deallocate : FileHeader → BitMap → Outcome BitMap
unfolding deallocate_loop get_sector
deallocate h free_map = deallocate_loop h.num_sectors 0 h free_map

pub byte_to_sector : FileHeader → ℕ → Outcome ℤ
unfolding get_sector
byte_to_sector h offset = get_sector h (offset / sector_size)

abbrev pub file_length : FileHeader → ℕ
file_length h = h.num_bytes
