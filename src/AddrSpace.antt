-- ===== src/AddrSpace.antt =====
-- userprog/addrspace.cc in a kernel built without VM: address spaces and the map of the machine's frames,
-- MiMapa. A page table that was not made is `none`. The table of open files is not part of it.
pub mod Frames
pub mod Programs
use nach_osx.Prelude.{
  ltb, leb, ◌==◌, if◌then◌else◌, ltb→lt, lt→ltb, ==_iff, Bool-cases, Option-cases, same_below,
  same_below_lem, length, get_or, set, replicate, take, drop, overlay, length-overlay,
  take-drop-overlay, length-take, length-drop, length-append, length-set, length-replicate,
  get_or-set_self, get_or-set_ne, ℤ, pos, negsuc, minus_one, int_eq, int_suc, int_pred, int_eq_iff,
  Outcome, ok, abort, overrun, ◌>>=◌, ◌>>◌, check, bounds, ok-injective, ℕ, zero, suc, ◌+◌, ◌-◌,
  ◌*◌, ◌/◌, ◌%◌, ◌^◌, ◌≤◌, ◌<◌, min, max, ◌≡◌, refl, sym, ap, ◌∙◌, subst, ◌≢◌, ◌↔◌, ◌⊎◌, inl, inr,
  Bool, true, false, not, ◌&&◌, ◌||◌, Option, none, some, List, [], ◌∷◌, ◌++◌, map, arith,
}
use nach_osx.BitMap.{BitMap, div_round_up, clear, find, num_clear}
use nach_osx.Translate.{TranslationEntry, page_size, num_phys_pages}
use nach_osx.Paging.{write_frame}
use nach_osx.VirtualMemory.{
  NoffHeader, noff_magic_number, Executable, user_stack_size, program_size, read_at,
}

pub record AddrSpace : Type 0 where
  pub page_table : Option (List TranslationEntry)
  pub num_pages : ℕ

abbrev pub new_entry : ℕ → ℕ → TranslationEntry
new_entry page location = record {
  virtual_page = page;
  physical_page = location;
  valid = true;
  read_only = false;
  use_bit = false;
  dirty = false;
}

pub clear_pages : List TranslationEntry → BitMap → Outcome BitMap
clear_pages [] m = ok m
clear_pages (e ∷ entries) m = do m' ← clear m (pos e.physical_page); clear_pages entries m'

-- The loop that finds a frame for each page from `page` on; `mine` are the entries with the frames that it
-- has found. Without a frame it gives those back and the thread finishes (`none`).
pub find_pages :
    ℕ → ℕ → List TranslationEntry → BitMap → Outcome (Option (List TranslationEntry) × BitMap)
unfolding clear_pages
find_pages zero page mine m = ok (some mine, m)
find_pages (suc n) page mine m = do
  (location, m') ← find m
  elim location [
    | pos p ↦ find_pages n (page + 1) (mine ++ (new_entry page p ∷ [])) m'
    | negsuc p ↦ (do m'' ← clear_pages mine m'; ok (none, m''))
  ]

-- The size that is copied for a page.
pub copy_size : NoffHeader → ℕ → ℕ → ℕ
copy_size h size_to_copy page =
    if page + 1 == size_to_copy then program_size h % size_to_copy else page_size

pub copy_pages : Executable → ℕ → ℕ → List TranslationEntry → List ℕ → Outcome (List ℕ)
unfolding copy_size
copy_pages exe size_to_copy page [] memory = ok memory
copy_pages exe size_to_copy page (e ∷ entries) memory = do
  memory' ← write_frame memory (pos e.physical_page) (
      read_at exe (copy_size exe.header size_to_copy page)
        (exe.header.code.in_file_addr + page * page_size))
  copy_pages exe size_to_copy (page + 1) entries memory'

abbrev pub pages_for : NoffHeader → ℕ
pages_for h = div_round_up (program_size h + user_stack_size) page_size

-- What is left of the constructor when the loop over the pages has ended.
unfoldable pub loaded :
    Executable
    → List ℕ
    → Option (List TranslationEntry) × BitMap
    → Outcome (Option (AddrSpace × List ℕ) × BitMap)
unfolding copy_pages
loaded exe memory (none, m) = ok (none, m)
loaded exe memory (some entries, m) = do
  memory' ← copy_pages exe (pages_for exe.header) 0 entries memory
  ok (some (record { page_table = some entries; num_pages = pages_for exe.header }, memory'), m)

-- The space with the machine's memory, and the map; `none` where the thread finishes.
pub exe_constructor : Executable → List ℕ → BitMap → Outcome (Option (AddrSpace × List ℕ) × BitMap)
unfolding find_pages loaded
exe_constructor exe memory m =
    let num_pages = pages_for exe.header in
    do
      check (exe.header.noff_magic == noff_magic_number)
      free ← num_clear m
      if ltb free num_pages
          then ok (some (record { page_table = none; num_pages = num_pages }, memory), m)
          else (do
            check (leb num_pages num_phys_pages)
            found ← find_pages num_pages 0 [] m
            loaded exe memory found)

-- The entries of the pages that a fork shares, from `page` on; `entries` are the parent's from there on.
pub share_pages : ℕ → ℕ → List TranslationEntry → Outcome (List TranslationEntry)
share_pages zero page entries = ok []
share_pages (suc n) page [] = overrun
share_pages (suc n) page (e ∷ entries) = do
  shared ← share_pages n (page + 1) entries
  ok (new_entry page e.physical_page ∷ shared)

-- The constructor of a fork: the stack's pages are its own. `none` where the thread finishes.
abbrev pub joined :
    ℕ
    → List TranslationEntry
    → Option (List TranslationEntry) × BitMap
    → Outcome (Option AddrSpace × BitMap)
joined num_pages shared (none, m) = ok (none, m)
joined num_pages shared (some stack, m) =
    ok (some (record { page_table = some (shared ++ stack); num_pages = num_pages }), m)

pub fork_constructor : ℕ → List TranslationEntry → BitMap → Outcome (Option AddrSpace × BitMap)
unfolding share_pages find_pages
fork_constructor num_pages other m =
    let shared_memory = num_pages - div_round_up user_stack_size page_size in
    do
      shared ← share_pages shared_memory 0 other
      stack ← find_pages (num_pages - shared_memory) shared_memory [] m
      joined num_pages shared stack

-- The destructor.
pub delete_space : List TranslationEntry → BitMap → Outcome BitMap
unfolding clear_pages
delete_space page_table m = clear_pages page_table m
