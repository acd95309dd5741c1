-- ===== src/VirtualMemory/Faults.antt =====
-- The first fault on a page of the executable: it goes into the first free frame and a free TLB entry.
use nach_osx.Prelude.{
  sym, ltb, leb, ◌==◌, ltb→lt, lt→ltb, Bool-cases, length, get_or, set, drop, overlay, length-take,
  length-set, get_or-set_self, ℤ, pos, minus_one, int_suc, ok, ℕ, zero, suc, ◌+◌, ◌*◌, ◌/◌, ◌≤◌,
  ◌<◌, ◌≡◌, refl, ap, ◌∙◌, subst, inl, inr, true, false, some, List, arith,
}
use nach_osx.BitMap.{BitMap, find}
use nach_osx.BitMap.Laws.{is_marked, Updates}
use nach_osx.BitMap.Search.{Found, full, first, find_lem}
use nach_osx.Translate.{page_size, tlb_size}
use nach_osx.Paging.{
  PageEntry, no_page, Algorithm, fifo, second_chance_bit, least_used, unknown, InvertedPageTable,
  num_phys_pages_ipt, update_by, update_page, swap_pages_quantity, is_loaded_in_swap, write_frame,
}
use nach_osx.Paging.SwapArea.{IsSwap, NotSwapped, find_slot-none}
use nach_osx.VirtualMemory.{
  program_size, noff_magic_number, read_at, Vm, is_loaded_in_page_table, get_virtual_page,
  take_frame, get_physical_page, store_replaced, load_to_tlb, size_to_load, stack_start,
  load_from_disk, free_entry, entry_to_replace, load_entry, replace_entry, load_page, fault_on,
  page_fault_handler,
}
use nach_osx.VirtualMemory.Contents.{HasPage, size_to_load_bound, overlay-HasPage}
use nach_osx.VirtualMemory.Full.{IsPageTable}

-- Frame `f` is the first that is free.
pub record FirstFree (t : InvertedPageTable) (f : ℕ) : Type 0 where
  pub below : f < num_phys_pages_ipt
  pub free : is_marked t.physical_pages_bitmap f ≡ false
  pub taken : (j : ℕ) → j < f → is_marked t.physical_pages_bitmap j ≡ true

find_first :
    (t : InvertedPageTable) (f : ℕ)
    → IsPageTable t
    → FirstFree t f
    → (m : BitMap) × (find t.physical_pages_bitmap ≡ ok (pos f, m))
      × Updates t.physical_pages_bitmap f true m
find_first t f v h =
    let (r, m, e, found) = find_lem t.physical_pages_bitmap v.valid in by r m e found
  where
    by :
        (r : ℤ) (m : BitMap)
        → find t.physical_pages_bitmap ≡ ok (r, m)
        → Found t.physical_pages_bitmap r m
        → (m : BitMap) × (find t.physical_pages_bitmap ≡ ok (pos f, m))
          × Updates t.physical_pages_bitmap f true m
    by r m e (full none_free same all) =
        ground (arith, h.free, all f (omega (arith, h.below, v.bits)))
    by r m e (first i found below free others u) =
        let same : i ≡ f = elim (Bool-cases (ltb i f)) [
          | inl lt ↦ ground (arith, h.taken i (ltb→lt i f lt))
          | inr ge ↦ ground (arith, ge, others f)
        ] in
        (
          m,
          e ∙ ap (λ x. ok (x, m)) (found ∙ ap pos same),
          subst (λ j. Updates t.physical_pages_bitmap j true m) same u,
        )

-- The inverted page table with page `page` in frame `f`.
abbrev entered : InvertedPageTable → BitMap → ℕ → ℕ → InvertedPageTable
entered t m f page = record t {
  physical_pages_bitmap = m;
  virtual_page_table = set t.virtual_page_table f (pos page);
  page_counter = int_suc t.page_counter;
}

pub get_physical_page_lem :
    (fuel page f : ℕ) (vm : Vm)
    → IsPageTable vm.inverted_page_table
    → FirstFree vm.inverted_page_table f
    → (m : BitMap) × (get_physical_page fuel (pos page) vm
        ≡ ok (pos f, record vm { inverted_page_table = entered vm.inverted_page_table m f page }))
      × Updates vm.inverted_page_table.physical_pages_bitmap f true m
unfolding get_physical_page take_frame
get_physical_page_lem fuel page f vm v h =
    let (m, e, u) = find_first vm.inverted_page_table f v h in
    (
      m,
      rw
          (
            e,
            lt→ltb f (length vm.inverted_page_table.virtual_page_table)
                (omega (arith, h.below, v.pages)),
          )
          refl,
      u,
    )

update_page_lem :
    (t : InvertedPageTable) (f : ℕ)
    → length t.uses ≡ num_phys_pages_ipt
    → f < num_phys_pages_ipt
    → (t' : InvertedPageTable) × (update_page (pos f) true t ≡ ok t')
unfolding update_page update_by
update_page_lem t f size lt = by t.replacement_algorithm
  where
    by : (a : Algorithm) → (t' : InvertedPageTable) × (update_by a (pos f) true t ≡ ok t')
    by fifo = (_, refl)
    by second_chance_bit = (_, refl)
    by least_used = (
      record t { uses = set t.uses f 0 },
      rw (lt→ltb f (length t.uses) (omega (arith, size))) refl,
    )
    by unknown = (_, refl)

-- Entry `k` is the first, from `from` on, that is not valid.
abbrev pub FirstInvalid : List PageEntry → ℕ → ℕ → Type 0
FirstInvalid tlb from k =
    (from ≤ k)
    × ((get_or tlb k no_page).valid ≡ false)
    × ((j : ℕ) → from ≤ j → j < k → (get_or tlb j no_page).valid ≡ true)

free_entry_lem :
    (n i : ℕ) (tlb : List PageEntry) (k : ℕ)
    → FirstInvalid tlb i k
    → k < n + i
    → n + i ≤ length tlb
    → free_entry n i tlb ≡ ok (some (pos k))
unfolding free_entry
free_entry_lem zero i tlb k (from, here, before) lt room = absurd (omega arith)
free_entry_lem (suc n) i tlb k (from, here, before) lt room = elim (Bool-cases (i == k)) [
  | inl same ↦ ground (arith, here)
  | inr other ↦
      rw (lt→ltb i (length tlb) (omega arith), before i (omega arith) (ground arith))
        (free_entry_lem n (i + 1) tlb k (ground arith, here, λ j p q. before j (omega arith) q)
          (omega arith) (omega arith))
]

-- What goes into the frame of the page at `addr`.
abbrev pub page_bytes : Vm → ℕ → List ℕ
page_bytes vm addr =
    let h = vm.own_executable.header in
    read_at vm.own_executable (size_to_load h vm.num_pages (addr / page_size))
      (h.code.in_file_addr + addr / page_size * page_size)

abbrev in_frame : PageEntry → ℕ → ℕ → PageEntry
in_frame e page f = record e { physical_page = pos f; virtual_page = pos page }

-- The state after loadFromDisk.
abbrev from_disk : Vm → BitMap → ℕ → ℕ → Vm
from_disk vm m f addr =
    let page = addr / page_size in
    record vm {
      inverted_page_table = entered vm.inverted_page_table m f page;
      page_table = set vm.page_table page (in_frame (get_or vm.page_table page no_page) page f);
      main_memory = overlay vm.main_memory (f * page_size) (page_bytes vm addr);
    }

load_from_disk_lem :
    (fuel addr f : ℕ) (vm : Vm)
    → IsPageTable vm.inverted_page_table
    → FirstFree vm.inverted_page_table f
    → f * page_size + page_size ≤ length vm.main_memory
    → addr / page_size < length vm.page_table
    → vm.own_executable.header.noff_magic ≡ noff_magic_number
    → leb (stack_start vm.own_executable.header) addr ≡ false
    → (m : BitMap) × (load_from_disk fuel addr vm
        ≡ ok (pos (addr / page_size), from_disk vm m f addr))
unfolding load_from_disk write_frame
load_from_disk_lem fuel addr f vm v h fits inside magic code =
    let page = addr / page_size in
    let (m, e, u) = get_physical_page_lem fuel page f vm v h in
    (m, rw (e, lt→ltb page (length vm.page_table) inside, magic_lem, code, room) refl)
  where
    magic_lem : (vm.own_executable.header.noff_magic == noff_magic_number) ≡ true
    magic_lem = ground (arith, magic)

    room : leb (f * page_size + length (page_bytes vm addr)) (length vm.main_memory) ≡ true
    room =
        let h = vm.own_executable.header in
        let size = size_to_load h vm.num_pages (addr / page_size) in
        let n : length (page_bytes vm addr) ≤ page_size = omega (
          arith,
          length-take size
              (drop (h.code.in_file_addr + addr / page_size * page_size) vm.own_executable.bytes),
          size_to_load_bound h vm.num_pages (addr / page_size),
        ) in
        ground (arith, n, fits)

-- Page `page` is in frame `f`, and TLB entry `k` says so.
pub record Mapped (vm : Vm) (page f k : ℕ) : Type 0 where
  pub tlb_page : (get_or vm.tlb k no_page).virtual_page ≡ pos page
  pub tlb_frame : (get_or vm.tlb k no_page).physical_page ≡ pos f
  pub tlb_valid : (get_or vm.tlb k no_page).valid ≡ true
  pub table_page : (get_or vm.page_table page no_page).virtual_page ≡ pos page
  pub table_frame : (get_or vm.page_table page no_page).physical_page ≡ pos f
  pub table_valid : (get_or vm.page_table page no_page).valid ≡ true

replace_entry_lem :
    (fuel page f k : ℕ) (vm : Vm)
    → length vm.tlb ≡ tlb_size
    → FirstInvalid vm.tlb 0 k
    → k < tlb_size
    → page < length vm.page_table
    → (get_or vm.page_table page no_page).virtual_page ≡ pos page
    → (get_or vm.page_table page no_page).physical_page ≡ pos f
    → length vm.inverted_page_table.uses ≡ num_phys_pages_ipt
    → f < num_phys_pages_ipt
    → (vm' : Vm) × (replace_entry fuel (pos page) vm ≡ ok vm')
      × Mapped vm' page f k
      × (vm'.main_memory ≡ vm.main_memory)
unfolding replace_entry entry_to_replace load_entry load_to_tlb store_replaced
replace_entry_lem fuel page f k vm size (from, invalid, before) lt inside its_page its_frame uses
      below =
    let e = get_or vm.page_table page no_page in
    let entry = get_or vm.tlb k no_page in
    let entry' = record entry {
      virtual_page = e.virtual_page;
      physical_page = e.physical_page;
      valid = true;
    } in
    let e' = record e { valid = true } in
    let (t, updated) = update_page_lem vm.inverted_page_table f uses below in
    let in_tlb = get_or-set_self vm.tlb k entry' no_page (omega (arith, size)) in
    let in_table = get_or-set_self vm.page_table page e' no_page inside in
    (
      record vm {
        page_table = set vm.page_table page e';
        tlb = set vm.tlb k entry';
        inverted_page_table = t;
      },
      rw
          (
            free_entry_lem tlb_size 0 vm.tlb k (from, invalid, before) (omega arith)
                (omega (arith, size)),
            lt→ltb k (length vm.tlb) (omega (arith, size)),
            invalid,
            lt→ltb page (length vm.page_table) inside,
            ap (λ x. update_page x true vm.inverted_page_table) its_frame ∙ updated,
          )
          refl,
      record {
        tlb_page = ap (λ (x : PageEntry). x.virtual_page) in_tlb ∙ its_page;
        tlb_frame = ap (λ (x : PageEntry). x.physical_page) in_tlb ∙ its_frame;
        tlb_valid = ap (λ (x : PageEntry). x.valid) in_tlb;
        table_page = ap (λ (x : PageEntry). x.virtual_page) in_table ∙ its_page;
        table_frame = ap (λ (x : PageEntry). x.physical_page) in_table ∙ its_frame;
        table_valid = ap (λ (x : PageEntry). x.valid) in_table;
      },
      refl,
    )

-- A fault on an address of the executable whose page is neither in memory nor in the swap area, with a
-- free frame and a free TLB entry, ends, whatever the algorithm, in an address space with room for the
-- program: the first free frame has every byte of the page that is in the program and in its file, the
-- other frames are as before, and the page table and the first free TLB entry map the page to that frame.
pub page_fault_handler-Mapped :
    (fuel addr f k : ℕ) (vm : Vm)
    → IsPageTable vm.inverted_page_table
    → FirstFree vm.inverted_page_table f
    → f * page_size + page_size ≤ length vm.main_memory
    → addr / page_size < length vm.page_table
    → (get_or vm.page_table (addr / page_size) no_page).virtual_page ≡ minus_one
    → IsSwap vm.memory_swap
    → NotSwapped vm.memory_swap (pos (addr / page_size))
    → vm.own_executable.header.noff_magic ≡ noff_magic_number
    → addr < stack_start vm.own_executable.header
    → program_size vm.own_executable.header ≤ vm.num_pages * page_size
    → length vm.tlb ≡ tlb_size
    → FirstInvalid vm.tlb 0 k
    → k < tlb_size
    → (vm' : Vm) × (page_fault_handler fuel addr vm ≡ ok vm')
      × Mapped vm' (addr / page_size) f k
      × HasPage vm.own_executable (addr / page_size) f vm.main_memory vm'.main_memory
unfolding page_fault_handler is_loaded_in_page_table get_virtual_page fault_on load_page
    is_loaded_in_swap
page_fault_handler-Mapped fuel addr f k vm v h fits inside absent w swapped magic code program size
      entry lt =
    let page = addr / page_size in
    let counted = record vm { page_fault_exceptions = vm.page_fault_exceptions + 1 } in
    let (m, e) =
      load_from_disk_lem fuel addr f counted v h fits inside magic (ground (arith, code)) in
    let vm₁ = from_disk counted m f addr in
    let its =
      get_or-set_self vm.page_table page (in_frame (get_or vm.page_table page no_page) page f)
        no_page inside in
    let (vm₂, e₂, mapped, memory) =
      replace_entry_lem fuel page f k vm₁ size entry lt
        (omega (
          arith,
          inside,
          length-set vm.page_table page (in_frame (get_or vm.page_table page no_page) page f),
        ))
        (ap (λ (x : PageEntry). x.virtual_page) its) (ap (λ (x : PageEntry). x.physical_page) its)
        v.uses h.below in
    (
      vm₂,
      rw
          (
            lt→ltb page (length vm.page_table) inside,
            absent,
            find_slot-none swap_pages_quantity 0 vm.memory_swap.virtual_pages (pos page)
                (λ j p q. swapped j (omega arith)) (omega (arith, w.slots)),
            e,
            e₂,
          )
          refl,
      mapped,
      subst (HasPage vm.own_executable page f vm.main_memory) (sym memory)
          (overlay-HasPage vm.own_executable vm.num_pages page f vm.main_memory program fits),
    )
