-- ===== src/VirtualMemory/Frames.antt =====
-- The inverted page table counts twice as many frames as the machine's memory has.
use nach_osx.Prelude.{
  leb, ◌==◌, lt→ltb, length, get_or, pos, minus_one, overrun, ℕ, ◌+◌, ◌*◌, ◌/◌, ◌≤◌, ◌<◌, ◌≡◌, refl,
  true, false, arith,
}
use nach_osx.Translate.{page_size, num_phys_pages, memory_size}
use nach_osx.Paging.{no_page, swap_pages_quantity, is_loaded_in_swap, write_frame}
use nach_osx.Paging.SwapArea.{IsSwap, NotSwapped, find_slot-none}
use nach_osx.VirtualMemory.{
  noff_magic_number, Vm, is_loaded_in_page_table, get_virtual_page, stack_start, load_from_disk,
  load_page, fault_on, page_fault_handler,
}
use nach_osx.VirtualMemory.Full.{IsPageTable}
use nach_osx.VirtualMemory.Faults.{FirstFree, page_bytes, get_physical_page_lem}

-- Where the first free frame is above those of the memory, a fault on an address of the executable
-- whose page is neither in memory nor in the swap area writes past the end of the memory.
pub page_fault_handler_overruns :
    (fuel addr f : ℕ) (vm : Vm)
    → IsPageTable vm.inverted_page_table
    → FirstFree vm.inverted_page_table f
    → length vm.main_memory ≡ memory_size
    → num_phys_pages ≤ f
    → 0 < length (page_bytes vm addr)
    → addr / page_size < length vm.page_table
    → (get_or vm.page_table (addr / page_size) no_page).virtual_page ≡ minus_one
    → IsSwap vm.memory_swap
    → NotSwapped vm.memory_swap (pos (addr / page_size))
    → vm.own_executable.header.noff_magic ≡ noff_magic_number
    → addr < stack_start vm.own_executable.header
    → page_fault_handler fuel addr vm ≡ overrun
unfolding page_fault_handler is_loaded_in_page_table get_virtual_page fault_on load_page
    is_loaded_in_swap load_from_disk write_frame
page_fault_handler_overruns fuel addr f vm v h size above some_bytes inside absent w swapped magic
      code =
    let page = addr / page_size in
    let counted = record vm { page_fault_exceptions = vm.page_fault_exceptions + 1 } in
    let (m, e, u) = get_physical_page_lem fuel page f counted v h in
    rw
      (
        lt→ltb page (length vm.page_table) inside,
        absent,
        find_slot-none swap_pages_quantity 0 vm.memory_swap.virtual_pages (pos page)
            (λ j p q. swapped j (omega arith)) (omega (arith, w.slots)),
        e,
        lt→ltb page (length vm.page_table) inside,
        magic_lem,
        code_lem,
        past_end,
      )
      refl
  where
    magic_lem : (vm.own_executable.header.noff_magic == noff_magic_number) ≡ true
    magic_lem = ground (arith, magic)

    code_lem : leb (stack_start vm.own_executable.header) addr ≡ false
    code_lem = ground (arith, code)

    past_end : leb (f * page_size + length (page_bytes vm addr)) (length vm.main_memory) ≡ false
    past_end = ground (arith, size, above, some_bytes)
