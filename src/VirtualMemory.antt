-- ===== src/VirtualMemory.antt =====
-- userprog/addrspace.cc and NachOS_PageFaultException of userprog/exception.cc, in a kernel built with VM:
-- how a page gets into a frame and into the TLB.
--
-- A Vm is what these functions change: the inverted page table, the swap area, the machine's memory and
-- TLB, and the address space of the current thread. The executable is its header and its bytes, as
-- OpenFile::ReadAt reads them on a little-endian host, where SwapHeader changes nothing.
pub mod Full
pub mod Contents
pub mod Faults
pub mod Frames
use nach_osx.Prelude.{
  leb, ◌==◌, if◌then◌else◌, replicate, take, drop, ℤ, pos, minus_one, int_eq, int_suc, int_pred,
  Outcome, ok, overrun, ◌>>=◌, ◌>>◌, check, ℕ, zero, suc, ◌+◌, ◌-◌, ◌*◌, ◌/◌, ◌%◌, Bool, true,
  false, not, ◌&&◌, Option, none, some, List, [], ◌∷◌, ◌++◌, map,
}
use nach_osx.BitMap.{div_round_up, find}
use nach_osx.Translate.{page_size, tlb_size}
use nach_osx.Paging.{
  PageEntry, no_page, InvertedPageTable, at, put_at, get_tlb_entry_to_replace, update_page,
  get_entry_to_replace, MemorySwap, is_loaded_in_swap, write_frame, read_swap_memory,
  write_swap_memory,
}

pub record Segment : Type 0 where
  pub virtual_addr : ℕ
  pub in_file_addr : ℕ
  pub size : ℕ

pub record NoffHeader : Type 0 where
  pub noff_magic : ℕ
  pub code : Segment
  pub init_data : Segment
  pub uninit_data : Segment

abbrev pub noff_magic_number : ℕ
noff_magic_number = 0xbad_fad

pub record Executable : Type 0 where
  pub header : NoffHeader
  pub bytes : List ℕ

abbrev pub user_stack_size : ℕ
user_stack_size = 1024

abbrev pub program_size : NoffHeader → ℕ
program_size h = h.code.size + h.init_data.size + h.uninit_data.size

-- ReadAt of the stub file system: the bytes from `position` on, as many as there are up to `num_bytes`.
abbrev pub read_at : Executable → ℕ → ℕ → List ℕ
read_at exe num_bytes position = take num_bytes (drop position exe.bytes)

pub record Vm : Type 0 where
  pub inverted_page_table : InvertedPageTable
  pub memory_swap : MemorySwap
  pub main_memory : List ℕ
  pub tlb : List PageEntry
  pub page_table : List PageEntry
  pub num_pages : ℕ
  pub own_executable : Executable
  pub page_fault_exceptions : ℕ

-- ExeVirtualMemoryConstructor: a page table with no page in memory.
pub exe_page_table : Executable → Outcome (ℕ × List PageEntry)
exe_page_table exe =
    let num_pages = div_round_up (program_size exe.header + user_stack_size) page_size in
    do
      check (exe.header.noff_magic == noff_magic_number)
      ok (num_pages, replicate num_pages no_page)

-- VirtualMemoryConstructor, the two loops: the pages in front of the stack are those of `other`.
abbrev pub shared_page : PageEntry → PageEntry
shared_page e = record {
  virtual_page = e.virtual_page;
  physical_page = e.physical_page;
  valid = true;
  read_only = false;
  use_bit = false;
  dirty = false;
}

pub fork_page_table : ℕ → List PageEntry → List PageEntry
fork_page_table num_pages other =
    let shared_memory = num_pages - div_round_up user_stack_size page_size in
    map shared_page (take shared_memory other) ++ replicate (num_pages - shared_memory) no_page

pub is_loaded_in_page_table : ℕ → Vm → Outcome Bool
is_loaded_in_page_table addr vm = do
  e ← at vm.page_table (pos (addr / page_size)) no_page
  ok (not (int_eq e.virtual_page minus_one))

pub get_virtual_page : ℕ → Vm → Outcome ℤ
get_virtual_page addr vm = do
  e ← at vm.page_table (pos (addr / page_size)) no_page
  ok (if int_eq e.virtual_page minus_one then pos (addr / page_size) else e.virtual_page)

abbrev pub reset_page : PageEntry → PageEntry
reset_page e = record e { virtual_page = minus_one; physical_page = minus_one; valid = false }

pub reset_tlb : ℤ → List PageEntry → List PageEntry
reset_tlb virtual_page [] = []
reset_tlb virtual_page (e ∷ tlb) =
    (if int_eq e.virtual_page virtual_page then reset_page e else e) ∷ reset_tlb virtual_page tlb

pub swap : ℤ → ℤ → Vm → Outcome (Bool × Vm)
unfolding reset_tlb
swap virtual_page physical_page vm = do
  e ← at vm.page_table virtual_page no_page
  page_table ← put_at vm.page_table virtual_page (reset_page e)
  (is_swapped, area) ← write_swap_memory physical_page virtual_page vm.main_memory vm.memory_swap
  ok (
    is_swapped,
    record vm { page_table = page_table; tlb = reset_tlb virtual_page vm.tlb; memory_swap = area },
  )

-- The end of getPhysicalPage: the frame gets the page.
pub take_frame : ℤ → ℤ → Vm → Outcome (ℤ × Vm)
take_frame available virtual_page vm = do
  let t = vm.inverted_page_table
  table ← put_at t.virtual_page_table available virtual_page
  ok (
    available,
    record vm {
      inverted_page_table = record t {
        virtual_page_table = table;
        page_counter = int_suc t.page_counter;
      };
    },
  )

-- getPhysicalPage where no frame is free.
pub make_room : ℕ → ℤ → Vm → Outcome (ℤ × Vm)
unfolding swap take_frame
make_room fuel virtual_page vm = do
  (position, t) ← get_entry_to_replace fuel vm.inverted_page_table
  other ← at t.virtual_page_table position minus_one
  (is_swapped, vm') ← swap position other (record vm { inverted_page_table = t })
  let t' = vm'.inverted_page_table
  if is_swapped
      then take_frame position virtual_page (record vm' {
        inverted_page_table = record t' { page_counter = int_pred t'.page_counter };
      })
      else ok (minus_one, vm')

pub get_physical_page : ℕ → ℤ → Vm → Outcome (ℤ × Vm)
unfolding make_room take_frame
get_physical_page fuel virtual_page vm = do
  let t = vm.inverted_page_table
  (available, bitmap) ← find t.physical_pages_bitmap
  let vm' = record vm { inverted_page_table = record t { physical_pages_bitmap = bitmap } }
  if int_eq available minus_one
      then make_room fuel virtual_page vm'
      else take_frame available virtual_page vm'

-- loadToTLB: the entry that is replaced leaves its use bit in the page table.
pub store_replaced : PageEntry → List PageEntry → Outcome (List PageEntry)
store_replaced entry page_table =
    if entry.valid
    then (do
      e ← at page_table entry.virtual_page no_page
      put_at page_table entry.virtual_page
          (record e { use_bit = entry.use_bit; dirty = entry.use_bit }))
    else ok page_table

pub load_to_tlb : ℤ → ℤ → Vm → Outcome Vm
unfolding store_replaced
load_to_tlb index virtual_addr vm = do
  entry ← at vm.tlb index no_page
  stored ← store_replaced entry vm.page_table
  e ← at stored virtual_addr no_page
  page_table ← put_at stored virtual_addr (record e { valid = true })
  tlb ← put_at vm.tlb index (record entry {
    virtual_page = e.virtual_page;
    physical_page = e.physical_page;
    valid = true;
  })
  t ← update_page e.physical_page true vm.inverted_page_table
  ok (record vm { page_table = page_table; tlb = tlb; inverted_page_table = t })

-- The page table after a successful read.
pub enter_page : ℤ → ℤ → Vm → Outcome Vm
enter_page virtual_page physical_page vm = do
  e ← at vm.page_table virtual_page no_page
  page_table ← put_at vm.page_table virtual_page (record e {
    physical_page = physical_page;
    virtual_page = virtual_page;
    valid = true;
    dirty = false;
  })
  ok (record vm { page_table = page_table })

pub load_from_swap : ℕ → ℤ → Vm → Outcome Vm
unfolding get_physical_page enter_page
load_from_swap fuel virtual_page vm = do
  (physical_page, vm') ← get_physical_page fuel virtual_page vm
  (successful, (memory, area)) ←
      read_swap_memory physical_page virtual_page vm'.main_memory vm'.memory_swap
  let vm'' = record vm' { main_memory = memory; memory_swap = area }
  if successful then enter_page virtual_page physical_page vm'' else ok vm''

-- The size of the part of the executable that goes into the frame of a page.
unfoldable pub size_to_load : NoffHeader → ℕ → ℕ → ℕ
size_to_load h num_pages page =
    if (page + 1 == num_pages) && not (program_size h % page_size == 0)
    then program_size h % page_size
    else page_size

-- The first address that counts as stack.
abbrev pub stack_start : NoffHeader → ℕ
stack_start h = h.init_data.size + h.uninit_data.size + h.code.in_file_addr + h.code.size

pub load_from_disk : ℕ → ℕ → Vm → Outcome (ℤ × Vm)
unfolding get_physical_page size_to_load
load_from_disk fuel addr vm =
    let virtual_page = addr / page_size in
    let h = vm.own_executable.header in
    do
      (physical_page, vm') ← get_physical_page fuel (pos virtual_page) vm
      e ← at vm'.page_table (pos virtual_page) no_page
      page_table ←
          put_at vm'.page_table (pos virtual_page)
            (record e { physical_page = physical_page; virtual_page = pos virtual_page })
      check (h.noff_magic == noff_magic_number)
      let vm'' = record vm' { page_table = page_table }
      let bytes =
          read_at vm.own_executable (size_to_load h vm.num_pages virtual_page)
            (h.code.in_file_addr + virtual_page * page_size)
      if leb (stack_start h) addr then ok (pos virtual_page, vm'') else (do
        memory ← write_frame vm''.main_memory physical_page bytes
        ok (pos virtual_page, record vm'' { main_memory = memory }))

-- The search for an invalid entry of the TLB.
pub free_entry : ℕ → ℕ → List PageEntry → Outcome (Option ℤ)
free_entry zero i tlb = ok none
free_entry (suc n) i tlb =
    let rest = free_entry n (i + 1) tlb in
    do e ← at tlb (pos i) no_page; if not e.valid then ok (some (pos i)) else rest

pub entry_to_replace : ℕ → Option ℤ → Vm → Outcome (Option ℤ × InvertedPageTable)
entry_to_replace fuel (some i) vm = ok (some i, vm.inverted_page_table)
entry_to_replace fuel none vm = get_tlb_entry_to_replace fuel vm.inverted_page_table vm.tlb

-- loadToTLB through a pointer that may not be set.
pub load_entry : Option ℤ → ℤ → Vm → Outcome Vm
unfolding load_to_tlb
load_entry none virtual_addr vm = overrun
load_entry (some i) virtual_addr vm = load_to_tlb i virtual_addr vm

pub replace_entry : ℕ → ℤ → Vm → Outcome Vm
unfolding free_entry entry_to_replace load_entry
replace_entry fuel virtual_addr vm = do
  free ← free_entry tlb_size 0 vm.tlb
  (index, t) ← entry_to_replace fuel free vm
  load_entry index virtual_addr (record vm { inverted_page_table = t })

pub load_page : ℕ → ℕ → ℤ → Bool → Vm → Outcome (ℤ × Vm)
unfolding load_from_swap load_from_disk
load_page fuel bad_addr virtual_addr true vm = do
  vm' ← load_from_swap fuel virtual_addr vm
  ok (virtual_addr, vm')
load_page fuel bad_addr virtual_addr false vm = load_from_disk fuel bad_addr vm

pub fault_on : ℕ → ℕ → ℤ → Bool → Vm → Outcome Vm
unfolding replace_entry load_page
fault_on fuel bad_addr virtual_addr true vm = replace_entry fuel virtual_addr vm
fault_on fuel bad_addr virtual_addr false vm = do
  in_swap ← is_loaded_in_swap virtual_addr vm.memory_swap
  (page, vm') ← load_page fuel bad_addr virtual_addr in_swap vm
  replace_entry fuel page vm'

pub page_fault_handler : ℕ → ℕ → Vm → Outcome Vm
unfolding is_loaded_in_page_table get_virtual_page fault_on
page_fault_handler fuel bad_addr vm = do
  let counted = record vm { page_fault_exceptions = vm.page_fault_exceptions + 1 }
  in_page_table ← is_loaded_in_page_table bad_addr counted
  virtual_addr ← get_virtual_page bad_addr counted
  fault_on fuel bad_addr virtual_addr in_page_table counted
