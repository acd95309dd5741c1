-- ===== src/Paging.antt =====
-- userprog/invertedpagetables.h and userprog/memoryswap.h, in a kernel built with VM: the choice of the
-- page that makes room, and the swap area. Page numbers are ints, since -1 stands for no page.
pub mod Victims
pub mod Uses
pub mod SwapArea
use nach_osx.Prelude.{
  ltb, leb, ◌==◌, if◌then◌else◌, ltb→lt, lt→ltb, ==_iff, Bool-cases, Option-cases, same_below,
  same_below_lem, length, get_or, set, replicate, take, drop, overlay, length-overlay,
  take-drop-overlay, length-take, length-drop, length-append, length-set, length-replicate,
  get_or-set_self, get_or-set_ne, ℤ, pos, negsuc, minus_one, int_eq, int_suc, int_pred, int_eq_iff,
  Outcome, ok, abort, overrun, ◌>>=◌, ◌>>◌, check, bounds, ok-injective, ℕ, zero, suc, ◌+◌, ◌-◌,
  ◌*◌, ◌/◌, ◌%◌, ◌^◌, ◌≤◌, ◌<◌, min, max, ◌≡◌, refl, sym, ap, ◌∙◌, subst, ◌≢◌, ◌↔◌, ◌⊎◌, inl, inr,
  Bool, true, false, not, ◌&&◌, ◌||◌, Option, none, some, List, [], ◌∷◌, ◌++◌, map, arith,
}
use nach_osx.BitMap
use nach_osx.BitMap.{BitMap, clear, find}
use nach_osx.Translate.{page_size, num_phys_pages, tlb_size}

-- machine/translate.h, TranslationEntry, with page numbers that may be -1.
pub record PageEntry : Type 0 where
  pub virtual_page : ℤ
  pub physical_page : ℤ
  pub valid : Bool
  pub read_only : Bool
  pub use_bit : Bool
  pub dirty : Bool

abbrev pub no_page : PageEntry
no_page = record {
  virtual_page = minus_one;
  physical_page = minus_one;
  valid = false;
  read_only = false;
  use_bit = false;
  dirty = false;
}

-- The int replacementAlgorithm: 0, 1, 2, and any other.
pub data Algorithm : Type 0 where
  fifo : Algorithm
  second_chance_bit : Algorithm
  least_used : Algorithm
  unknown : Algorithm

pub record InvertedPageTable : Type 0 where
  pub uses : List ℕ
  pub virtual_page_table : List ℤ
  pub fifo_queue : List ℤ
  pub page_counter : ℤ
  pub second_chance_queue : List (ℤ × Bool)
  pub physical_pages_bitmap : BitMap
  pub replacement_algorithm : Algorithm

abbrev pub num_phys_pages_ipt : ℕ
num_phys_pages_ipt = num_phys_pages * 2

pub new_inverted_page_table : List ℕ → Algorithm → Outcome InvertedPageTable
new_inverted_page_table memory algorithm_to_use = do
  bitmap ← BitMap.create memory num_phys_pages_ipt
  ok (record {
    uses = replicate num_phys_pages_ipt 0;
    virtual_page_table = replicate num_phys_pages_ipt minus_one;
    fifo_queue = [];
    page_counter = pos 0;
    second_chance_queue = [];
    physical_pages_bitmap = bitmap;
    replacement_algorithm = algorithm_to_use;
  })

-- array[i] and array[i] = v
abbrev pub at {ℓ} : {A : Type ℓ} → List A → ℤ → A → Outcome A
at xs (negsuc i) d = overrun
at xs (pos i) d = do bounds (ltb i (length xs)); ok (get_or xs i d)

abbrev pub put_at {ℓ} : {A : Type ℓ} → List A → ℤ → A → Outcome (List A)
put_at xs (negsuc i) v = overrun
put_at xs (pos i) v = do bounds (ltb i (length xs)); ok (set xs i v)

-- The loop over the queue of pages and marks: a page that is marked loses its mark and goes to the
-- end, one that is not is chosen, and goes to the end with a mark.
pub second_chance : ℕ → List (ℤ × Bool) → Outcome (ℤ × List (ℤ × Bool))
second_chance zero queue = overrun
second_chance (suc fuel) [] = overrun
second_chance (suc fuel) ((page, false) ∷ queue) = ok (page, queue ++ ((page, true) ∷ []))
second_chance (suc fuel) ((page, true) ∷ queue) = second_chance fuel (queue ++ ((page, false) ∷ []))

pub least_loop : ℕ → ℕ → List ℕ → ℕ → ℕ → Outcome ℕ
least_loop zero i uses least_uses least_used_page = ok least_used_page
least_loop (suc n) i uses least_uses least_used_page = do
  u ← at uses (pos i) 0
  least_loop n (i + 1) uses (if ltb u least_uses then u else least_uses)
      (if ltb u least_uses then i else least_used_page)

pub get_least_used_physical_page : InvertedPageTable → Outcome ℕ
unfolding least_loop
get_least_used_physical_page t = do
  first ← at t.uses (pos 0) 0
  least_loop (num_phys_pages_ipt - 1) 1 t.uses first 0

-- The loop over the TLB: the entry whose frame has the fewest uses, and that frame.
pub least_entry_loop : ℕ → ℕ → List ℕ → List PageEntry → ℕ → ℤ → ℕ → Outcome (ℕ × ℤ)
least_entry_loop zero page uses tlb entry frame least = ok (entry, frame)
least_entry_loop (suc n) page uses tlb entry frame least = do
  buffer ← at tlb (pos page) no_page
  u ← at uses buffer.physical_page 0
  least_entry_loop n (page + 1) uses tlb (if ltb u least then page else entry)
      (if ltb u least then buffer.physical_page else frame) (if ltb u least then u else least)

-- The index in machine->tlb; `none` where the pointer is not set.
pub tlb_entry_by :
    Algorithm → ℕ → InvertedPageTable → List PageEntry → Outcome (Option ℤ × InvertedPageTable)
unfolding second_chance least_entry_loop
tlb_entry_by fifo fuel t tlb = ok (none, t)
tlb_entry_by second_chance_bit fuel t tlb = do
  (page, queue) ← second_chance fuel t.second_chance_queue
  ok (some page, record t { second_chance_queue = queue })
tlb_entry_by least_used fuel t tlb = do
  first ← at tlb (pos 0) no_page
  u ← at t.uses first.physical_page 0
  (entry, frame) ← least_entry_loop (tlb_size - 1) 1 t.uses tlb 0 first.physical_page u
  uses ← put_at t.uses frame 0
  ok (some (pos entry), record t { uses = uses })
tlb_entry_by unknown fuel t tlb = ok (none, t)

pub get_tlb_entry_to_replace :
    ℕ → InvertedPageTable → List PageEntry → Outcome (Option ℤ × InvertedPageTable)
unfolding tlb_entry_by
get_tlb_entry_to_replace fuel t tlb = tlb_entry_by t.replacement_algorithm fuel t tlb

unfoldable pub update_by : Algorithm → ℤ → Bool → InvertedPageTable → Outcome InvertedPageTable
update_by fifo page reset_uses t = ok (record t { fifo_queue = t.fifo_queue ++ (page ∷ []) })
update_by second_chance_bit page reset_uses t =
    ok (record t { second_chance_queue = t.second_chance_queue ++ ((page, true) ∷ []) })
update_by least_used page reset_uses t = do
  u ← at t.uses page 0
  uses ← put_at t.uses page (if reset_uses then 0 else u + 1)
  ok (record t { uses = uses })
update_by unknown page reset_uses t = ok t

unfoldable pub update_page : ℤ → Bool → InvertedPageTable → Outcome InvertedPageTable
unfolding update_by
update_page page reset_uses t = update_by t.replacement_algorithm page reset_uses t

abbrev pub pop_front : List ℤ → Outcome (ℤ × List ℤ)
pop_front [] = overrun
pop_front (x ∷ xs) = ok (x, xs)

unfoldable pub entry_by : Algorithm → ℕ → InvertedPageTable → Outcome (ℤ × InvertedPageTable)
unfolding second_chance get_least_used_physical_page
entry_by fifo fuel t = do
  (page, queue) ← pop_front t.fifo_queue
  ok (page, record t { fifo_queue = queue })
entry_by second_chance_bit fuel t = do
  (page, queue) ← second_chance fuel t.second_chance_queue
  ok (page, record t { second_chance_queue = queue })
entry_by least_used fuel t = do
  page ← get_least_used_physical_page t
  virtual_page_table ← put_at t.virtual_page_table (pos page) minus_one
  uses ← put_at t.uses (pos page) 0
  ok (pos page, record t { virtual_page_table = virtual_page_table; uses = uses })
entry_by unknown fuel t = ok (pos 0, t)

unfoldable pub get_entry_to_replace : ℕ → InvertedPageTable → Outcome (ℤ × InvertedPageTable)
unfolding entry_by
get_entry_to_replace fuel t = entry_by t.replacement_algorithm fuel t

pub restore_pages : List PageEntry → List PageEntry
restore_pages tlb = map (λ (e : PageEntry). record e { valid = true }) tlb

-- The class swap. `swap_segment` is the file: each slot has the page last written at its place.
pub record MemorySwap : Type 0 where
  pub swap_bit_map : BitMap
  pub virtual_pages : List ℤ
  pub swap_segment : ℕ → List ℕ

abbrev pub swap_pages_quantity : ℕ
swap_pages_quantity = 2 * num_phys_pages

pub new_swap : List ℕ → (ℕ → List ℕ) → Outcome MemorySwap
new_swap memory file = do
  bitmap ← BitMap.create memory swap_pages_quantity
  ok (record {
    swap_bit_map = bitmap;
    virtual_pages = replicate swap_pages_quantity minus_one;
    swap_segment = file;
  })

-- The loops of isLoadedInSwap and of readSwapMemory: the first slot of the page.
pub find_slot : ℕ → ℕ → List ℤ → ℤ → Outcome (Option ℕ)
find_slot zero i virtual_pages page = ok none
find_slot (suc n) i virtual_pages page =
    let rest = find_slot n (i + 1) virtual_pages page in
    do v ← at virtual_pages (pos i) minus_one; if int_eq v page then ok (some i) else rest

abbrev pub is_some {ℓ} : {A : Type ℓ} → Option A → Bool
is_some none = false
is_some (some a) = true

unfoldable pub is_loaded_in_swap : ℤ → MemorySwap → Outcome Bool
unfolding find_slot
is_loaded_in_swap addr s = do
  slot ← find_slot swap_pages_quantity 0 s.virtual_pages addr
  ok (is_some slot)

-- The bytes of a frame of mainMemory, and their replacement.
unfoldable pub read_frame : List ℕ → ℤ → Outcome (List ℕ)
read_frame memory (negsuc p) = overrun
read_frame memory (pos p) = do
  bounds (leb (p * page_size + page_size) (length memory))
  ok (take page_size (drop (p * page_size) memory))

unfoldable pub write_frame : List ℕ → ℤ → List ℕ → Outcome (List ℕ)
write_frame memory (negsuc p) bytes = overrun
write_frame memory (pos p) bytes = do
  bounds (leb (p * page_size + length bytes) (length memory))
  ok (overlay memory (p * page_size) bytes)

pub read_slot : ℤ → Option ℕ → List ℕ → MemorySwap → Outcome (Bool × (List ℕ × MemorySwap))
unfolding write_frame
read_slot physical_page none memory s = ok (false, (memory, s))
read_slot physical_page (some slot) memory s = do
  virtual_pages ← put_at s.virtual_pages (pos slot) (pos 0)
  bitmap ← clear s.swap_bit_map (pos slot)
  memory' ← write_frame memory physical_page (s.swap_segment slot)
  ok (true, (memory', record s { virtual_pages = virtual_pages; swap_bit_map = bitmap }))

pub read_swap_memory : ℤ → ℤ → List ℕ → MemorySwap → Outcome (Bool × (List ℕ × MemorySwap))
unfolding find_slot read_slot
read_swap_memory physical_page virtual_page memory s = do
  slot ← find_slot swap_pages_quantity 0 s.virtual_pages virtual_page
  read_slot physical_page slot memory s

unfoldable pub write_slot : ℤ → ℤ → ℤ → List ℕ → MemorySwap → Outcome (Bool × MemorySwap)
unfolding read_frame
write_slot physical_page virtual_page (negsuc p) memory s = ok (false, s)
write_slot physical_page virtual_page (pos slot) memory s = do
  virtual_pages ← put_at s.virtual_pages (pos slot) virtual_page
  bytes ← read_frame memory physical_page
  ok (
    true,
    record s {
      virtual_pages = virtual_pages;
      swap_segment = λ i. if slot == i then bytes else s.swap_segment i;
    },
  )

unfoldable pub write_swap_memory : ℤ → ℤ → List ℕ → MemorySwap → Outcome (Bool × MemorySwap)
unfolding write_slot
write_swap_memory physical_page virtual_page memory s = do
  (available, bitmap) ← find s.swap_bit_map
  write_slot physical_page virtual_page available memory (record s { swap_bit_map = bitmap })
