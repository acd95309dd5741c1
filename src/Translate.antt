-- ===== src/Translate.antt =====
-- machine/translate.h and `Machine::Translate` of machine/translate.cc: from virtual to physical
-- addresses, in a kernel built without VM. An unsigned int is a word.
pub mod Entries
pub mod Translation
pub mod Repeated
use nach_osx.Words.{word_size, bit_and-one}
use nach_osx.FileHeader.{sector_size}
use Prim.Native.Nat.{bit_and, bit_or}
use nach_osx.Prelude.{
  ltb, leb, ◌==◌, if◌then◌else◌, length, get_or, set, Outcome, ok, abort, ◌>>=◌, ◌>>◌, check,
  bounds, ℕ, zero, suc, ◌+◌, ◌-◌, ◌*◌, ◌/◌, ◌%◌, Bool, true, false, not, ◌&&◌, ◌||◌, Option, none,
  some, List,
}

-- machine/machine.h
abbrev pub page_size : ℕ
page_size = sector_size

abbrev pub num_phys_pages : ℕ
num_phys_pages = 32

abbrev pub memory_size : ℕ
memory_size = num_phys_pages * page_size

abbrev pub tlb_size : ℕ
tlb_size = 4

pub data ExceptionType : Type 0 where
  no_exception : ExceptionType
  syscall_exception : ExceptionType
  page_fault_exception : ExceptionType
  read_only_exception : ExceptionType
  bus_error_exception : ExceptionType
  address_error_exception : ExceptionType
  overflow_exception : ExceptionType
  illegal_instr_exception : ExceptionType

pub record TranslationEntry : Type 0 where
  pub virtual_page : ℕ
  pub physical_page : ℕ
  pub valid : Bool
  pub read_only : Bool
  pub use_bit : Bool
  pub dirty : Bool

-- The memory of a Machine; `none` is a NULL pointer.
pub record Machine : Type 0 where
  pub main_memory : List ℕ
  pub tlb : Option (List TranslationEntry)
  pub page_table : Option (List TranslationEntry)
  pub page_table_size : ℕ

abbrev pub no_entry : TranslationEntry
no_entry = record {
  virtual_page = 0;
  physical_page = 0;
  valid = false;
  read_only = false;
  use_bit = false;
  dirty = false;
}

-- The table that is there, the index of the entry in it, or the exception.
pub data Located : Type 0 where
  fault : ExceptionType → Located
  in_page_table : ℕ → Located
  in_tlb : ℕ → Located

pub find_in_tlb : ℕ → ℕ → List TranslationEntry → ℕ → Outcome Located
find_in_tlb zero i entries vpn = ok (fault page_fault_exception)
find_in_tlb (suc n) i entries vpn =
    let rest = find_in_tlb n (i + 1) entries vpn in
    do
      bounds (ltb i (length entries))
      let e = get_or entries i no_entry
      if e.valid && (e.virtual_page == vpn) then ok (in_tlb i) else rest

pub find_in_page_table : List TranslationEntry → ℕ → ℕ → Outcome Located
find_in_page_table entries size vpn =
    if leb size vpn then ok (fault address_error_exception) else do
      bounds (ltb vpn (length entries))
      if not (get_or entries vpn no_entry).valid
          then ok (fault page_fault_exception)
          else ok (in_page_table vpn)

-- The two ASSERTs, and the search of the table that is there.
pub locate :
    Option (List TranslationEntry) → Option (List TranslationEntry) → ℕ → ℕ → Outcome Located
unfolding find_in_tlb find_in_page_table
locate none none size vpn = abort
locate (some entries) (some pages) size vpn = abort
locate none (some pages) size vpn = find_in_page_table pages size vpn
locate (some entries) none size vpn = find_in_tlb tlb_size 0 entries vpn

-- The use and the dirty bit.
abbrev pub touched : TranslationEntry → Bool → TranslationEntry
touched e writing = record e { use_bit = true; dirty = if writing then true else e.dirty }

-- The part behind the search: the exception, or the physical address and the new entry.
pub use_entry : TranslationEntry → ℕ → ℕ → Bool → Outcome (ExceptionType × ℕ × TranslationEntry)
use_entry e offset size writing =
    if e.read_only && writing
    then ok (read_only_exception, 0, e)
    else if leb num_phys_pages e.physical_page
    then ok (bus_error_exception, 0, e)
    else do
      let address = e.physical_page * page_size + offset
      check (leb (address + size) memory_size)
      ok (no_exception, address, touched e writing)

abbrev pub set_entry :
    Option (List TranslationEntry) → ℕ → TranslationEntry → Option (List TranslationEntry)
set_entry none i e = none
set_entry (some entries) i e = some (set entries i e)

abbrev pub entry_of : Option (List TranslationEntry) → ℕ → TranslationEntry
entry_of none i = no_entry
entry_of (some entries) i = get_or entries i no_entry

pub translate_located : Machine → Located → ℕ → ℕ → Bool → Outcome (ExceptionType × ℕ × Machine)
unfolding use_entry
translate_located m (fault e) offset size writing = ok (e, 0, m)
translate_located m (in_page_table i) offset size writing = do
  (exception, address, e) ← use_entry (entry_of m.page_table i) offset size writing
  ok (exception, address, record m { page_table = set_entry m.page_table i e })
translate_located m (in_tlb i) offset size writing = do
  (exception, address, e) ← use_entry (entry_of m.tlb i) offset size writing
  ok (exception, address, record m { tlb = set_entry m.tlb i e })

-- (size == 4 && (virtAddr & 0x3)) || (size == 2 && (virtAddr & 0x1))
abbrev pub misaligned : ℕ → ℕ → Bool
misaligned address size =
    (size == 4) && not (bit_and address 3 == 0) || (size == 2) && not (bit_and address 1 == 0)

-- The exception and, for NoException, the physical address.
unfoldable pub translate : Machine → ℕ → ℕ → Bool → Outcome (ExceptionType × ℕ × Machine)
unfolding locate translate_located
translate m address size writing =
    if misaligned address size then ok (address_error_exception, 0, m) else do
      place ← locate m.tlb m.page_table m.page_table_size (address / page_size)
      translate_located m place (address % page_size) size writing
