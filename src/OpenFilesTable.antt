-- ===== src/OpenFilesTable.antt =====
-- userprog/openfilestable.h and userprog/openfilestable.cc: the table that gives a user program
-- small handles for the Unix handles of its open files. userprog/addrspace.h holds a copy of the
-- class. The memory that `new int[tableSize]` returns is an argument of the constructor.
pub mod Start
pub mod Opening
pub mod Closing
use nach_osx.Prelude.{
  ◌>>=◌, ◌>>◌, ltb, ◌==◌, if◌then◌else◌, length, get_or, set, ℤ, pos, negsuc, minus_one, int_eq,
  int_suc, int_pred, Outcome, ok, overrun, bounds, ℕ, zero, suc, ◌+◌, ◌/◌, Bool, true, false, not,
  ◌||◌, List, [], ◌∷◌,
}
use nach_osx.BitMap
use nach_osx.BitMap.{BitMap, mark, clear, test, find}

abbrev pub table_size : ℕ
table_size = 100

pub record OpenFilesTable : Type 0 where
  pub open_files : List ℤ
  pub open_files_map : BitMap
  pub usage : ℤ

-- memset(openFiles, -1, n) sets n bytes, and an int has four.
memset_minus_one : ℕ → List ℤ → List ℤ
memset_minus_one n [] = []
memset_minus_one zero (x ∷ xs) = x ∷ xs
memset_minus_one (suc n) (x ∷ xs) = minus_one ∷ memset_minus_one n xs

pub get_entry : OpenFilesTable → ℕ → Outcome ℤ
get_entry t i = do bounds (ltb i (length t.open_files)); ok (get_or t.open_files i minus_one)

pub put_entry : OpenFilesTable → ℤ → ℤ → Outcome OpenFilesTable
put_entry t (negsuc i) v = overrun
put_entry t (pos i) v = do
  bounds (ltb i (length t.open_files))
  ok (record t { open_files = set t.open_files i v })

unfoldable pub create : List ℕ → List ℤ → Outcome OpenFilesTable
unfolding put_entry memset_minus_one
create map_memory memory = do
  empty ← BitMap.create map_memory table_size
  m₀ ← mark empty (pos 0)
  m₁ ← mark m₀ (pos 1)
  m₂ ← mark m₁ (pos 2)
  let t : OpenFilesTable = record {
    open_files = memset_minus_one (table_size / 4) memory;
    open_files_map = m₂;
    usage = pos 1;
  }
  t₀ ← put_entry t (pos 0) (pos 0)
  t₁ ← put_entry t₀ (pos 1) (pos 1)
  put_entry t₁ (pos 2) (pos 2)

-- The loop of `Open`: the first handle in use that stands for `unix_handle`, or 0.
search_loop : ℕ → ℕ → OpenFilesTable → ℤ → Outcome ℕ
search_loop zero i t unix_handle = ok 0
search_loop (suc n) i t unix_handle =
    let rest = search_loop n (i + 1) t unix_handle in
    do
      used ← test t.open_files_map (pos i)
      if not used
          then rest
          else do entry ← get_entry t i; if int_eq entry unix_handle then ok i else rest

unfoldable pub open_file : OpenFilesTable → ℤ → Outcome (ℤ × OpenFilesTable)
unfolding search_loop get_entry put_entry
open_file t unix_handle = do
  handle ← search_loop table_size 0 t unix_handle
  if not (handle == 0) then ok (pos handle, t) else do
    (free, m) ← find t.open_files_map
    let t' = record t { open_files_map = m }
    if int_eq free minus_one
        then ok (minus_one, t')
        else do t'' ← put_entry t' free unix_handle; ok (free, t'')

-- NachosHandle < 0 || NachosHandle > tableSize
out_of_table : ℤ → Bool
out_of_table (negsuc h) = true
out_of_table (pos h) = ltb table_size h

pub is_opened : OpenFilesTable → ℤ → Outcome Bool
unfolding out_of_table
is_opened t h = if out_of_table h then ok false else test t.open_files_map h

-- openFiles[h], for a handle that has passed the test above.
entry_at : OpenFilesTable → ℤ → Outcome ℤ
unfolding get_entry
entry_at t (negsuc h) = overrun
entry_at t (pos h) = get_entry t h

pub close_file : OpenFilesTable → ℤ → Outcome (ℤ × OpenFilesTable)
unfolding is_opened entry_at put_entry
close_file t h = do
  opened ← is_opened t h
  if not opened || out_of_table h then ok (minus_one, t) else do
    unix_handle ← entry_at t h
    m ← clear t.open_files_map h
    t' ← put_entry (record t { open_files_map = m }) h minus_one
    ok (unix_handle, t')

pub get_unix_handle : OpenFilesTable → ℤ → Outcome ℤ
unfolding out_of_table entry_at
get_unix_handle t h = if out_of_table h then ok minus_one else entry_at t h

abbrev pub add_thread : OpenFilesTable → OpenFilesTable
add_thread t = record t { usage = int_suc t.usage }

-- The count that is left: the caller destroys the table at 0.
abbrev pub del_thread : OpenFilesTable → ℤ × OpenFilesTable
del_thread t = (int_pred t.usage, record t { usage = int_pred t.usage })
