-- ===== src/Directory.antt =====
-- filesys/directory.h and filesys/directory.cc: the table of the file names. Reading the table from
-- its file and writing it back are not part of this module.
pub mod Lookup
pub mod Find
pub mod Update
pub mod Removal
use nach_osx.Prelude.{
  if◌then◌else◌, get_or, set, ℤ, pos, negsuc, minus_one, int_eq, ℕ, ◌+◌, Bool, true, false, not,
  ◌&&◌, List, [], ◌∷◌,
}
use nach_osx.CString.{strncmp_eq, strncpy}

abbrev pub file_name_max_len : ℕ
file_name_max_len = 9

-- `name` is the array of FileNameMaxLen + 1 bytes.
pub record DirectoryEntry : Type 0 where
  pub in_use : Bool
  pub sector : ℤ
  pub name : List ℕ

pub record Directory : Type 0 where
  pub table_size : ℕ
  pub table : List DirectoryEntry

-- The constructor, given the memory that `new DirectoryEntry[size]` returns.
unfoldable pub free_all : List DirectoryEntry → List DirectoryEntry
free_all [] = []
free_all (e ∷ es) = record e { in_use = false } ∷ free_all es

unfoldable pub create : List DirectoryEntry → ℕ → Directory
unfolding free_all
create memory size = record { table_size = size; table = free_all memory }

-- table[i].inUse && !strncmp(table[i].name, name, FileNameMaxLen)
abbrev pub names : DirectoryEntry → List ℕ → Bool
names e name = e.in_use && strncmp_eq file_name_max_len e.name name

-- The loops over the table run on the entries that are left, and `i` is the index of the first.
find_index_loop : List DirectoryEntry → ℕ → List ℕ → ℤ
find_index_loop [] i name = minus_one
find_index_loop (e ∷ es) i name =
    let rest = find_index_loop es (i + 1) name in if names e name then pos i else rest

unfoldable pub find_index : Directory → List ℕ → ℤ
unfolding find_index_loop
find_index d name = find_index_loop d.table 0 name

-- table[i], for the index that FindIndex has returned.
abbrev pub no_entry : DirectoryEntry
no_entry = record { in_use = false; sector = minus_one; name = [] }

sector_at : Directory → ℤ → ℤ
sector_at d (pos i) = (get_or d.table i no_entry).sector
sector_at d (negsuc i) = minus_one

unfoldable pub find : Directory → List ℕ → ℤ
unfolding find_index sector_at
find d name =
    let i = find_index d name in if not (int_eq i minus_one) then sector_at d i else minus_one

-- The loop of `Add`: it fills the first entry that is not in use, and says whether there was one.
unfoldable pub add_loop : List DirectoryEntry → List ℕ → ℤ → Bool × List DirectoryEntry
add_loop [] name new_sector = (false, [])
add_loop (e ∷ es) name new_sector =
    let (done, rest) = add_loop es name new_sector in
    if not e.in_use
    then (
      true,
      record { in_use = true; sector = new_sector; name = strncpy file_name_max_len e.name name }
          ∷ es,
    )
    else (done, e ∷ rest)

unfoldable pub add : Directory → List ℕ → ℤ → Bool × Directory
unfolding find_index add_loop
add d name new_sector =
    if not (int_eq (find_index d name) minus_one)
    then (false, d)
    else (let (done, entries) = add_loop d.table name new_sector in
        (done, record d { table = entries }))

clear_entry : List DirectoryEntry → ℤ → List DirectoryEntry
clear_entry es (negsuc i) = es
clear_entry es (pos i) = set es i (record (get_or es i no_entry) { in_use = false })

unfoldable pub remove : Directory → List ℕ → Bool × Directory
unfolding find_index clear_entry
remove d name =
    let i = find_index d name in
    if int_eq i minus_one then (false, d) else (true, record d { table = clear_entry d.table i })

-- The names that `List` prints, in the order of the table.
pub list_names : List DirectoryEntry → List (List ℕ)
list_names [] = []
list_names (e ∷ es) = if e.in_use then e.name ∷ list_names es else list_names es
