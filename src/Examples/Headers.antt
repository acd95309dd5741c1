-- ===== src/Examples/Headers.antt =====
-- FileHeader on a map of 64 free sectors.
use nach_osx.Prelude.{replicate, pos, ok, ℕ, ◌<◌, ◌≡◌, refl, ◌∙◌, true, false, [], ◌∷◌, arith}
use nach_osx.BitMap
use nach_osx.BitMap.{BitMap}
use nach_osx.BitMap.Laws.{is_marked, IsValid}
use nach_osx.BitMap.Search.{create_lem}
use nach_osx.BitMap.Count.{free_bits, free_bits-empty}
use nach_osx.FileHeader.{FileHeader, allocate, deallocate}
use nach_osx.FileHeader.Allocation.{Filled, sectors_for, sized, allocate-Filled, allocate_refused}
use nach_osx.FileHeader.Deallocation.{deallocate-allocate}

abbrev fresh_header : FileHeader
fresh_header = record { num_bytes = 0; num_sectors = 0; data_sectors = replicate 30 (pos 0) }

fresh :
    (m : BitMap) × (BitMap.create (0 ∷ 0 ∷ []) 64 ≡ ok m)
    × IsValid m
    × (m.num_bits ≡ 64)
    × ((j : ℕ) → j < 64 → is_marked m j ≡ false)
unfolding BitMap.div_round_up
fresh = create_lem (0 ∷ 0 ∷ []) 64 refl

free_map : BitMap
free_map = fresh.0

free_map-IsValid : IsValid free_map
unfolding free_map
free_map-IsValid = fresh.2

all_free : free_bits free_map ≡ 64
unfolding free_map
all_free = free_bits-empty fresh.0 (λ j lt. fresh.4 j (omega (arith, fresh.3))) ∙ fresh.3

-- 300 bytes take three sectors.
three_sectors : sectors_for 300 ≡ 3
unfolding BitMap.div_round_up
three_sectors = refl

granted :
    (h : FileHeader) × (m : BitMap) × (allocate fresh_header free_map 300 ≡ ok (true, h, m))
    × Filled (sized fresh_header 300) free_map 0 (sectors_for 300) h m
granted =
    allocate-Filled fresh_header free_map 300 free_map-IsValid refl (omega (arith, three_sectors))
      (omega (arith, three_sectors, all_free))

allocate_refused_example :
    allocate fresh_header free_map 9000 ≡ ok (false, sized fresh_header 9000, free_map)
unfolding BitMap.div_round_up
allocate_refused_example =
    allocate_refused fresh_header free_map 9000 free_map-IsValid (omega (arith, all_free))

deallocate-allocate_example :
    (m : BitMap) × (deallocate granted.0 granted.1 ≡ ok m)
    × IsValid m
    × (m.num_bits ≡ free_map.num_bits)
    × ((j : ℕ) → is_marked m j ≡ is_marked free_map j)
deallocate-allocate_example =
    deallocate-allocate fresh_header granted.0 free_map granted.1 300 free_map-IsValid refl
      granted.2
