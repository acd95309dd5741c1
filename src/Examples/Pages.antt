-- ===== src/Examples/Pages.antt =====
-- Paging and page faults of a small program.
use nach_osx.Prelude.{
  ◌==◌, if◌then◌else◌, same_below, same_below_lem, length, get_or, set, replicate, length-replicate,
  ℤ, pos, minus_one, int_eq, ok, ℕ, zero, suc, ◌<◌, ◌≡◌, refl, Bool, true, false, List, [], ◌∷◌,
  arith,
}
use nach_osx.Bits.{bit}
use nach_osx.BitMap
use nach_osx.BitMap.{BitMap, mark, test, find}
use nach_osx.BitMap.Laws.{is_marked, IsValid}
use nach_osx.Paging.{
  no_page, least_used, InvertedPageTable, second_chance, MemorySwap, read_frame, read_swap_memory,
  write_slot, write_swap_memory, is_loaded_in_swap,
}
use nach_osx.Paging.Victims.{Chosen, second_chance-Chosen}
use nach_osx.Paging.SwapArea.{IsSwap, read_swap_memory-write_swap_memory}
use nach_osx.VirtualMemory.{NoffHeader, Executable, Vm, page_fault_handler, size_to_load}
use nach_osx.VirtualMemory.Contents.{HasPage}
use nach_osx.VirtualMemory.Full.{IsPageTable}
use nach_osx.VirtualMemory.Faults.{Mapped, page_bytes, page_fault_handler-Mapped}

second_chance-Chosen_example :
    (page : ℤ) × (rest : List (ℤ × Bool)) × (second_chance 3 ((pos 4, true) ∷ (pos 7, false) ∷ [])
      ≡ ok (page, rest))
    × Chosen ((pos 4, true) ∷ (pos 7, false) ∷ []) page rest
second_chance-Chosen_example =
    second_chance-Chosen ((pos 4, true) ∷ (pos 7, false) ∷ []) 3 (λ e. cc) (omega arith)

-- 64 bits, all clear, and all set.
abbrev clear_map : BitMap
clear_map = record { num_bits = 64; num_words = 2; map = 0 ∷ 0 ∷ [] }

abbrev full_map : BitMap
full_map = record { num_bits = 64; num_words = 2; map = 0xffff_ffff ∷ 0xffff_ffff ∷ [] }

clear_map-IsValid : IsValid clear_map
unfolding BitMap.div_round_up
clear_map-IsValid = record { words = refl; stored = refl }

full_map-IsValid : IsValid full_map
unfolding BitMap.div_round_up
full_map-IsValid = record { words = refl; stored = refl }

abbrev page_table : BitMap → InvertedPageTable
page_table m = record {
  uses = replicate 64 3;
  virtual_page_table = replicate 64 minus_one;
  fifo_queue = [];
  page_counter = pos 0;
  second_chance_queue = [];
  physical_pages_bitmap = m;
  replacement_algorithm = least_used;
}

page_table-IsPageTable : (m : BitMap) → m.num_bits ≡ 64 → IsValid m → IsPageTable (page_table m)
page_table-IsPageTable m bits v = record {
  uses = length-replicate {A = ℕ} 64 3;
  pages = length-replicate 64 minus_one;
  bits = bits;
  valid = v;
}

abbrev empty_swap : MemorySwap
empty_swap = record {
  swap_bit_map = clear_map;
  virtual_pages = replicate 64 minus_one;
  swap_segment = λ i. [];
}

empty_swap-IsSwap : IsSwap empty_swap
empty_swap-IsSwap = record {
  bits = refl;
  valid = clear_map-IsValid;
  slots = length-replicate 64 minus_one;
}

no_slot :
    (n : ℕ) (page j : ℕ) → int_eq (get_or (replicate n minus_one) j minus_one) (pos page) ≡ false
no_slot zero page j = refl
no_slot (suc n) page zero = refl
no_slot (suc n) page (suc j) = no_slot n page j

abbrev memory : List ℕ
memory = replicate 4096 0

-- Page 5 goes from frame 1 to the first slot.
abbrev one_page : MemorySwap
one_page = record {
  swap_bit_map = record { num_bits = 64; num_words = 2; map = 1 ∷ 0 ∷ [] };
  virtual_pages = set (replicate 64 minus_one) 0 (pos 5);
  swap_segment = λ i. if 0 == i then replicate 128 0 else [];
}

page_written : write_swap_memory (pos 1) (pos 5) memory empty_swap ≡ ok (true, one_page)
unfolding write_swap_memory write_slot read_frame find mark test
page_written = refl

read_swap_memory-write_swap_memory_example :
    (memory' : List ℕ) × (s'' : MemorySwap) × (read_swap_memory (pos 2) (pos 5) memory one_page
      ≡ ok (true, (memory', s'')))
    × (read_frame memory' (pos 2) ≡ read_frame memory (pos 1))
    × IsSwap s''
    × ((j : ℕ) → is_marked s''.swap_bit_map j ≡ is_marked clear_map j)
    × (is_loaded_in_swap (pos 0) s'' ≡ ok true)
read_swap_memory-write_swap_memory_example =
    read_swap_memory-write_swap_memory empty_swap memory memory 1 2 (pos 5) one_page
      empty_swap-IsSwap (omega (arith, length-replicate {A = ℕ} 4096 0))
      (omega (arith, length-replicate {A = ℕ} 4096 0)) (λ j lt. no_slot 64 5 j) page_written

abbrev header : NoffHeader
header = record {
  noff_magic = 0xbad_fad;
  code = record { virtual_addr = 0; in_file_addr = 40; size = 300 };
  init_data = record { virtual_addr = 0; in_file_addr = 0; size = 0 };
  uninit_data = record { virtual_addr = 0; in_file_addr = 0; size = 0 };
}

abbrev program : Executable
program = record { header = header; bytes = replicate 400 9 }

abbrev machine_with : InvertedPageTable → Vm
machine_with t = record {
  inverted_page_table = t;
  memory_swap = empty_swap;
  main_memory = memory;
  tlb = replicate 4 no_page;
  page_table = replicate 11 no_page;
  num_pages = 11;
  own_executable = program;
  page_fault_exceptions = 0;
}

all_marked : (j : ℕ) → j < 64 → is_marked full_map j ≡ true
unfolding same_below is_marked bit
all_marked j lt = same_below_lem (is_marked full_map) (λ i. true) 64 j refl lt

none_marked : (j : ℕ) → j < 64 → is_marked clear_map j ≡ false
unfolding same_below is_marked bit
none_marked j lt = same_below_lem (is_marked clear_map) (λ i. false) 64 j refl lt

-- The fault at address 130, in page 1.
page_fault_handler-Mapped_example :
    (vm' : Vm) × (page_fault_handler 1 130 (machine_with (page_table clear_map)) ≡ ok vm')
    × Mapped vm' 1 0 0
    × HasPage program 1 0 memory vm'.main_memory
page_fault_handler-Mapped_example =
    page_fault_handler-Mapped 1 130 0 0 (machine_with (page_table clear_map))
      (page_table-IsPageTable clear_map refl clear_map-IsValid)
      (record {
        below = omega arith;
        free = none_marked 0 (omega arith);
        taken = λ j lt. absurd (omega arith);
      })
      (omega (arith, length-replicate {A = ℕ} 4096 0)) (omega arith) refl empty_swap-IsSwap
      (λ j lt. no_slot 64 1 j) refl (omega arith) (omega arith) refl
      (omega arith, refl, λ j p lt. absurd (omega arith)) (omega arith)

-- The map with the memory's 32 frames taken.
abbrev half_map : BitMap
half_map = record { num_bits = 64; num_words = 2; map = 0xffff_ffff ∷ 0 ∷ [] }

half_map-IsValid : IsValid half_map
unfolding BitMap.div_round_up
half_map-IsValid = record { words = refl; stored = refl }

half_marked : (j : ℕ) → j < 32 → is_marked half_map j ≡ true
unfolding same_below is_marked bit
half_marked j lt = same_below_lem (is_marked half_map) (λ i. true) 32 j refl lt

frame_32 : is_marked half_map 32 ≡ false
unfolding is_marked bit
frame_32 = refl

some_bytes : 0 < length (page_bytes (machine_with (page_table half_map)) 130)
unfolding size_to_load
some_bytes = omega arith
