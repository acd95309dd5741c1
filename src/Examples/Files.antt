-- ===== src/Examples/Files.antt =====
-- A file of 200 bytes in sectors 5 and 9 of a disk.
use nach_osx.Prelude.{
  length, get_or, replicate, length-replicate, pos, minus_one, ok, ℕ, zero, suc, ◌+◌, ◌/◌, ◌%◌, ◌<◌,
  ◌≡◌, refl, ap, ◌∙◌, ◌≢◌, true, false, List, [], ◌∷◌, arith,
}
use nach_osx.BitMap.{BitMap, create, div_round_up}
use nach_osx.BitMap.Laws.{is_marked, IsValid}
use nach_osx.FileSystem.{disk_sectors}
use nach_osx.FileHeader.{FileHeader, sector_size, allocate}
use nach_osx.FileHeader.Allocation.{sectors_for, sized, allocate-Filled}
use nach_osx.FileHeader.Allocation
use nach_osx.BitMap.Search.{create_lem}
use nach_osx.BitMap.Count.{free_bits-empty}
use nach_osx.OpenFile.{Disk, clipped, read_at, write_at}
use nach_osx.OpenFile.Buffers.{at, Filled}
use nach_osx.OpenFile.Reading.{Stored, file_byte, read_at-Filled}
use nach_osx.OpenFile.NewFile.{allocate-Stored}
use nach_osx.OpenFile.{write_back, open_file}
use nach_osx.OpenFile.Headers.{open_file-write_back}
use nach_osx.Disk.{DiskState, sectors_per_track, rotation_time, compute_latency}
use nach_osx.Disk.Latency.{compute_latency_lands}
use nach_osx.OpenFile.Updates.{Updated, write_at-Updated, read_at-write_at}

get_or-replicate : (n s : ℕ) (bytes : List ℕ) → s < n → get_or (replicate n bytes) s [] ≡ bytes
get_or-replicate zero s bytes lt = elim lt [ ]
get_or-replicate (suc n) zero bytes lt = refl
get_or-replicate (suc n) (suc s) bytes lt = get_or-replicate n s bytes (omega arith)

pub blank : Disk
blank = replicate disk_sectors (replicate sector_size 7)

abbrev pub two_sectors : FileHeader
two_sectors = record {
  num_bytes = 200;
  num_sectors = 2;
  data_sectors = pos 5 ∷ pos 9 ∷ replicate 28 minus_one;
}

abbrev pub places : List ℕ
places = 5 ∷ 9 ∷ []

held_places : (i : ℕ) → i < 2 → get_or two_sectors.data_sectors i minus_one ≡ pos (at places i)
held_places zero lt = refl
held_places (suc zero) lt = refl
held_places (suc (suc i)) lt = absurd (omega arith)

places_inside : (i : ℕ) → i < 2 → at places i < disk_sectors
places_inside zero lt = omega arith
places_inside (suc zero) lt = omega arith
places_inside (suc (suc i)) lt = absurd (omega arith)

places_distinct : (i j : ℕ) → i < 2 → j < 2 → at places i ≡ at places j → i ≡ j
places_distinct zero zero lt lt' e = refl
places_distinct zero (suc zero) lt lt' e = absurd (omega arith)
places_distinct (suc zero) zero lt lt' e = absurd (omega arith)
places_distinct (suc zero) (suc zero) lt lt' e = refl
places_distinct (suc (suc i)) j lt lt' e = absurd (omega arith)
places_distinct i (suc (suc j)) lt lt' e = absurd (omega arith)

pub two_sectors-Stored : Stored two_sectors places blank
unfolding blank
two_sectors-Stored = record {
  held = held_places;
  room = omega arith;
  on_disk = places_inside;
  whole = λ s lt.
      ap length (get_or-replicate disk_sectors s (replicate sector_size 7) lt)
      ∙ length-replicate {A = ℕ} sector_size 7;
  disk_size = length-replicate disk_sectors (replicate {A = ℕ} sector_size 7);
  distinct = places_distinct;
  enough = omega arith;
}

abbrev pub new_bytes : ℕ → List ℕ
new_bytes size = replicate size 1

read_at-Filled_example :
    (into' : List ℕ) × (read_at new_bytes two_sectors blank (replicate 60 0) 0 60 100
      ≡ ok (clipped two_sectors.num_bytes 60 100, into'))
    × Filled
        (λ k. file_byte places blank (100 + k))
        (clipped two_sectors.num_bytes 60 100)
        (replicate 60 0)
        0
        into'
read_at-Filled_example =
    read_at-Filled two_sectors places blank two_sectors-Stored new_bytes (replicate 60 0) 0 60 100
      (λ size. length-replicate {A = ℕ} size 1) (omega arith)

write_at-Updated_example :
    (disk' : Disk) × (write_at new_bytes new_bytes new_bytes two_sectors blank
        (replicate 60 3)
        60
        100
      ≡ ok (clipped two_sectors.num_bytes 60 100, disk'))
    × Updated two_sectors places blank
        (replicate 60 3)
        (clipped two_sectors.num_bytes 60 100)
        100
        disk'
write_at-Updated_example =
    write_at-Updated two_sectors places blank two_sectors-Stored new_bytes new_bytes new_bytes
      (λ size. length-replicate {A = ℕ} size 1) (λ size. length-replicate {A = ℕ} size 1)
      (λ size. length-replicate {A = ℕ} size 1) (replicate 60 3) 60 100 (omega arith)

read_at-write_at_example :
    (disk' : Disk) × (into' : List ℕ) × (write_at new_bytes new_bytes new_bytes two_sectors blank
        (replicate 60 3)
        60
        100
      ≡ ok (clipped two_sectors.num_bytes 60 100, disk'))
    × (read_at new_bytes two_sectors disk' (replicate 60 0) 0 60 100
        ≡ ok (clipped two_sectors.num_bytes 60 100, into'))
    × ((k : ℕ) → k < clipped two_sectors.num_bytes 60 100 → at into' k ≡ at (replicate 60 3) k)
read_at-write_at_example =
    read_at-write_at two_sectors places blank two_sectors-Stored new_bytes new_bytes new_bytes
      (λ size. length-replicate {A = ℕ} size 1) (λ size. length-replicate {A = ℕ} size 1)
      (λ size. length-replicate {A = ℕ} size 1) (replicate 60 3) 60 100 new_bytes (replicate 60 0)
      (λ size. length-replicate {A = ℕ} size 1) (omega arith) (omega arith)

whole_map :
    (m : BitMap) × (create (replicate 32 0) disk_sectors ≡ ok m)
    × IsValid m
    × (m.num_bits ≡ disk_sectors)
    × ((j : ℕ) → j < disk_sectors → is_marked m j ≡ false)
unfolding div_round_up
whole_map = create_lem (replicate 32 0) disk_sectors refl

new_header : FileHeader
new_header = record { num_bytes = 0; num_sectors = 0; data_sectors = replicate 30 minus_one }

two_needed : sectors_for 200 ≡ 2
unfolding div_round_up
two_needed = refl

two_taken :
    (h : FileHeader) × (m : BitMap) × (allocate new_header whole_map.0 200 ≡ ok (true, h, m))
    × Allocation.Filled (sized new_header 200) whole_map.0 0 (sectors_for 200) h m
unfolding whole_map new_header
two_taken =
    allocate-Filled new_header whole_map.0 200 whole_map.2 refl (omega (arith, two_needed)) (
      omega (
        arith,
        two_needed,
        whole_map.3,
        free_bits-empty whole_map.0 (λ j lt. whole_map.4 j (omega (arith, whole_map.3))),
      ))

allocate-Stored_example :
    (ss : List ℕ) × Stored two_taken.0 ss blank × (two_taken.0.num_bytes ≡ 200)
unfolding blank whole_map new_header
allocate-Stored_example =
    allocate-Stored new_header two_taken.0 whole_map.0 two_taken.1 200 blank whole_map.2 refl
      whole_map.3 (length-replicate disk_sectors (replicate {A = ℕ} sector_size 7))
      (λ s lt.
        ap length (get_or-replicate disk_sectors s (replicate sector_size 7) lt)
        ∙ length-replicate {A = ℕ} sector_size 7)
      two_taken.2

open_file-write_back_example :
    (disk' : Disk) × (write_back two_sectors blank (pos 5) ≡ ok disk')
    × (open_file disk' (pos 5) (new_bytes 128)
        ≡ ok (record { hdr = two_sectors; seek_position = 0 }))
    × ((j : ℕ) → 5 ≢ j → get_or disk' j [] ≡ get_or blank j [])
open_file-write_back_example =
    open_file-write_back two_sectors blank 5 (new_bytes 128)
      (record {
        bytes_fit = omega arith;
        sectors_fit = omega arith;
        size = refl;
        entries = omega arith;
      })
      (omega arith) two_sectors-Stored.disk_size (two_sectors-Stored.whole 5 (omega arith)) refl

-- The head behind sector 40, for sector 100.
abbrev waiting : DiskState
waiting = record { active = false; last_sector = 40; buffer_init = 0 }

compute_latency_lands_example :
    ((1230 + compute_latency 1230 waiting 100 true) % rotation_time ≡ 0)
    × ((1230 + compute_latency 1230 waiting 100 true) / rotation_time % sectors_per_track
        ≡ (100 + 1) % sectors_per_track)
compute_latency_lands_example = compute_latency_lands 1230 waiting 100 (omega arith) (omega arith)
