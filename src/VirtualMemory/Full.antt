-- ===== src/VirtualMemory/Full.antt =====
-- getPhysicalPage with no free frame, under the least used algorithm.
use nach_osx.Prelude.{
  ltb, lt→ltb, Bool-cases, length, set, length-set, get_or-set_self, ℤ, pos, minus_one, Outcome, ok,
  overrun, ◌>>=◌, ℕ, ◌<◌, ◌≡◌, refl, ap, ◌∙◌, inl, inr, true, false, List, arith,
}
use nach_osx.BitMap.{BitMap, find}
use nach_osx.BitMap.Laws.{IsValid, is_marked}
use nach_osx.BitMap.Search.{Found, full, first, find_lem}
use nach_osx.Paging.{
  InvertedPageTable, least_used, num_phys_pages_ipt, at, entry_by, get_entry_to_replace, MemorySwap,
  swap_pages_quantity, read_frame, write_slot, write_swap_memory, get_least_used_physical_page,
}
use nach_osx.Paging.Uses.{get_least_used_physical_page-Least}
use nach_osx.Paging.SwapArea.{IsSwap}
use nach_osx.VirtualMemory.{Vm, swap, make_room, get_physical_page}

-- The tables of the inverted page table have their sizes.
pub record IsPageTable (t : InvertedPageTable) : Type 0 where
  pub uses : length t.uses ≡ num_phys_pages_ipt
  pub pages : length t.virtual_page_table ≡ num_phys_pages_ipt
  pub bits : t.physical_pages_bitmap.num_bits ≡ num_phys_pages_ipt
  pub valid : IsValid t.physical_pages_bitmap

write_to_no_frame :
    (s : MemorySwap) (page : ℤ) (memory : List ℕ) (free : ℕ)
    → IsSwap s
    → free < swap_pages_quantity
    → is_marked s.swap_bit_map free ≡ false
    → write_swap_memory minus_one page memory s ≡ overrun
unfolding write_swap_memory write_slot read_frame
write_to_no_frame s page memory free w lt unmarked =
    let (r, m, e, f) = find_lem s.swap_bit_map w.valid in by r m e f
  where
    by :
        (r : ℤ) (m : BitMap)
        → find s.swap_bit_map ≡ ok (r, m)
        → Found s.swap_bit_map r m
        → write_swap_memory minus_one page memory s ≡ overrun
    by r m e (full none_free same all) = ground (arith, all free (omega (arith, w.bits)))
    by r m e (first i found below free' _ u) =
        rw (e, found, lt→ltb i (length s.virtual_pages) (omega (arith, w.slots, w.bits))) refl

overruns-bind :
    {A B : Type 0} (r : Outcome A) (f : A → Outcome B) → r ≡ overrun → (r >>= f) ≡ overrun
overruns-bind r f e = rw e refl

-- swap, told to write no frame, either misses the page table or reads in front of the memory.
swap_overruns :
    (position : ℕ) (vm : Vm) (free : ℕ)
    → IsSwap vm.memory_swap
    → free < swap_pages_quantity
    → is_marked vm.memory_swap.swap_bit_map free ≡ false
    → swap (pos position) minus_one vm ≡ overrun
unfolding swap
swap_overruns position vm free w lt unmarked =
    elim (Bool-cases (ltb position (length vm.page_table))) [
      | inl inside ↦
          rw
            (
              inside,
              write_to_no_frame vm.memory_swap (pos position) vm.main_memory free w lt unmarked,
            )
            refl
      | inr outside ↦ rw outside refl
    ]

find_full :
    (t : InvertedPageTable)
    → IsPageTable t
    → ((j : ℕ) → j < num_phys_pages_ipt → is_marked t.physical_pages_bitmap j ≡ true)
    → find t.physical_pages_bitmap ≡ ok (minus_one, t.physical_pages_bitmap)
find_full t v taken = let (r, m, e, f) = find_lem t.physical_pages_bitmap v.valid in by r m e f
  where
    by :
        (r : ℤ) (m : BitMap)
        → find t.physical_pages_bitmap ≡ ok (r, m)
        → Found t.physical_pages_bitmap r m
        → find t.physical_pages_bitmap ≡ ok (minus_one, t.physical_pages_bitmap)
    by r m e (full none_free same all) = e ∙ ap (λ x. ok x) (λ i. (none_free i, same i))
    by r m e (first i found below free _ u) = ground (arith, taken i (omega (arith, v.bits)))

-- The least used frame, whose entry is cleared.
abbrev cleared : InvertedPageTable → ℕ → InvertedPageTable
cleared t p = record t {
  virtual_page_table = set t.virtual_page_table p minus_one;
  uses = set t.uses p 0;
}

entry_by_least :
    (fuel : ℕ) (t : InvertedPageTable) (p : ℕ)
    → get_least_used_physical_page t ≡ ok p
    → p < length t.virtual_page_table
    → p < length t.uses
    → entry_by least_used fuel t ≡ ok (pos p, cleared t p)
unfolding entry_by
entry_by_least fuel t p e room uses =
    rw (e, lt→ltb p (length t.virtual_page_table) room, lt→ltb p (length t.uses) uses) refl

at-cleared :
    (t : InvertedPageTable) (p : ℕ)
    → p < length t.virtual_page_table
    → at (cleared t p).virtual_page_table (pos p) minus_one ≡ ok minus_one
at-cleared t p room =
    rw
      (
        length-set t.virtual_page_table p minus_one,
        lt→ltb p (length t.virtual_page_table) room,
        get_or-set_self t.virtual_page_table p minus_one minus_one room,
      )
      refl

get_entry_least :
    (fuel : ℕ) (t : InvertedPageTable)
    → t.replacement_algorithm ≡ least_used
    → IsPageTable t
    → (p : ℕ) × (get_entry_to_replace fuel t ≡ ok (pos p, cleared t p))
      × (at (cleared t p).virtual_page_table (pos p) minus_one ≡ ok minus_one)
unfolding get_entry_to_replace
get_entry_least fuel t algorithm v =
    let (p, e, l) = get_least_used_physical_page-Least t v.uses in
    let room : p < length t.virtual_page_table = omega (arith, l.below, v.pages) in
    (
      p,
      ap (λ a. entry_by a fuel t) algorithm
          ∙ entry_by_least fuel t p e room (omega (arith, l.below, v.uses)),
      at-cleared t p room,
    )

make_room_overruns :
    (fuel : ℕ) (virtual_page : ℤ) (vm : Vm) (free : ℕ)
    → vm.inverted_page_table.replacement_algorithm ≡ least_used
    → IsPageTable vm.inverted_page_table
    → IsSwap vm.memory_swap
    → free < swap_pages_quantity
    → is_marked vm.memory_swap.swap_bit_map free ≡ false
    → make_room fuel virtual_page vm ≡ overrun
unfolding make_room
make_room_overruns fuel virtual_page vm free algorithm v w lt unmarked =
    let (p, e, at_p) = get_entry_least fuel vm.inverted_page_table algorithm v in
    rw
      (
        e,
        at_p,
        swap_overruns p (record vm { inverted_page_table = cleared vm.inverted_page_table p }) free
            w lt unmarked,
      )
      refl

-- Where every frame is taken and the algorithm is the least used, getPhysicalPage clears the frame's
-- entry before it reads it, and so asks swap to write frame -1: with room in the swap area it reads
-- in front of the machine's memory.
pub get_physical_page_overruns :
    (fuel : ℕ) (virtual_page : ℤ) (vm : Vm) (free : ℕ)
    → vm.inverted_page_table.replacement_algorithm ≡ least_used
    → IsPageTable vm.inverted_page_table
    → ((j : ℕ)
        → j < num_phys_pages_ipt
        → is_marked vm.inverted_page_table.physical_pages_bitmap j ≡ true)
    → IsSwap vm.memory_swap
    → free < swap_pages_quantity
    → is_marked vm.memory_swap.swap_bit_map free ≡ false
    → get_physical_page fuel virtual_page vm ≡ overrun
unfolding get_physical_page
get_physical_page_overruns fuel virtual_page vm free algorithm v taken w lt unmarked =
    rw (find_full vm.inverted_page_table v taken)
      (make_room_overruns fuel virtual_page vm free algorithm v w lt unmarked)
