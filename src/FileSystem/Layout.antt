-- ===== src/FileSystem/Layout.antt =====
-- When a disk is consistent: the map of free sectors accounts for every sector of every file.
use nach_osx.Prelude.{
  ◌==◌, Bool-cases, length, ℤ, pos, ℕ, ◌+◌, ◌≤◌, ◌<◌, ◌≡◌, refl, subst, inl, inr, true, some, List,
  [], ◌∷◌, arith,
}
use nach_osx.BitMap.{BitMap}
use nach_osx.BitMap.Laws.{is_marked, IsValid}
use nach_osx.Directory.{DirectoryEntry, names, add_loop}
use nach_osx.Directory.Lookup.{lookup, IsDirectory}
use nach_osx.Directory.Removal.{remove_first}
use nach_osx.FileHeader.{FileHeader, num_direct}
use nach_osx.FileHeader.Sectors.{has, Holds}
use nach_osx.FileSystem.{
  Disk, disk_sectors, fetch_free_map, fetch_directory, write_free_map, update_header,
}
use nach_osx.FileSystem.Accounting.{one_if, count, file_uses, header_at, uses, listed-Holds}

-- The table of a header names sectors of the disk.
pub record FileOk (h : FileHeader) : Type 0 where
  pub data_list : List ℕ
  pub held : Holds h.data_sectors 0 data_list
  pub counted : length data_list ≡ h.num_sectors
  pub room : length h.data_sectors ≡ num_direct
  pub fits : h.num_sectors ≤ num_direct
  pub inside : (j : ℕ) → has j data_list ≡ true → j < disk_sectors

abbrev pub EntryOk : (ℕ → FileHeader) → ℤ → Type 0
EntryOk f x = (s : ℕ) × (x ≡ pos s) × (s < disk_sectors) × FileOk (f s)

abbrev pub Files : (ℕ → FileHeader) → List DirectoryEntry → Type 0
Files f [] = Unit {0}
Files f (e ∷ es) = (e.in_use ≡ true → EntryOk f e.sector) × Files f es

-- Each sector below NumSectors is marked once if it is reserved or belongs to a file, and not marked
-- if neither: no two files share a sector, and none is lost.
pub record Consistent (reserved : ℕ → ℕ) (d : Disk) : Type 0 where
  pub valid : IsValid (fetch_free_map d)
  pub directory : IsDirectory (fetch_directory d)
  pub files : Files d.header d.directory_file
  pub account :
      (j : ℕ)
      → j < disk_sectors
      → reserved j + uses d.header d.directory_file j ≡ one_if (is_marked (fetch_free_map d) j)

-- What is written to freeMapFile is what is fetched from it.
pub fetch-write_free_map :
    (m : BitMap) (d : Disk)
    → IsValid m
    → m.num_bits ≡ disk_sectors
    → fetch_free_map (write_free_map m d) ≡ m
unfolding fetch_free_map write_free_map
fetch-write_free_map m d v size = ground (arith, v.words, v.stored)

pub fetch_free_map_size : (d : Disk) → (fetch_free_map d).num_bits ≡ disk_sectors
unfolding fetch_free_map
fetch_free_map_size d = refl

pub file_uses-count :
    (h : FileHeader) (s j : ℕ) (ok_file : FileOk h)
    → file_uses h (pos s) j ≡ one_if (s == j) + count j ok_file.data_list
unfolding file_uses
file_uses-count h s j v =
    rw (← v.counted) (omega (arith, listed-Holds v.data_list 0 h.data_sectors j v.held))

-- A file that is found by its name is sound, and its sectors are in the account.
pub lookup-Files :
    (f : ℕ → FileHeader) (es : List DirectoryEntry) (name : List ℕ) (x : ℤ)
    → Files f es
    → lookup es name ≡ some x
    → EntryOk f x
lookup-Files f [] name x w l = cc
lookup-Files f (e ∷ es) name x w l = elim (Bool-cases (names e name)) [
  | inl hit ↦ subst (EntryOk f) (ground (arith, hit)) (w.0 (ground arith))
  | inr miss ↦ lookup-Files f es name x w.1 (rw miss at l)
]

EntryOk-update :
    (f : ℕ → FileHeader) (s : ℕ) (h : FileHeader) (x : ℤ)
    → EntryOk f x
    → file_uses (header_at f x) x s ≡ 0
    → EntryOk (update_header f s h) x
unfolding file_uses
EntryOk-update f s h x (t, at, lt, v) unused = (
  t,
  at,
  lt,
  elim (Bool-cases (s == t)) [ inl same ↦ absurd (ground arith) | inr other ↦ rw other v ],
)

-- A header that is written to a sector which no file uses leaves the files sound.
pub Files-update :
    (f : ℕ → FileHeader) (s : ℕ) (h : FileHeader) (es : List DirectoryEntry)
    → Files f es
    → uses f es s ≡ 0
    → Files (update_header f s h) es
unfolding uses
Files-update f s h [] w unused = tt
Files-update f s h (e ∷ es) w unused = (
  λ used. EntryOk-update f s h e.sector (w.0 used) (entry_unused used),
  Files-update f s h es w.1 (omega arith),
)
  where
    entry_unused : e.in_use ≡ true → file_uses (header_at f e.sector) e.sector s ≡ 0
    entry_unused used = ground (arith, used)

pub Files-add_loop :
    (f : ℕ → FileHeader) (es : List DirectoryEntry) (name : List ℕ) (x : ℤ)
    → Files f es
    → EntryOk f x
    → Files f (add_loop es name x).1
unfolding add_loop
Files-add_loop f [] name x w ok_new = tt
Files-add_loop f (e ∷ es) name x w ok_new = elim (Bool-cases e.in_use) [
  | inl used ↦ simp used (λ _. w.0 used, Files-add_loop f es name x w.1 ok_new)
  | inr free ↦ simp free (λ _. ok_new, w.1)
]

pub Files-remove_first :
    (f : ℕ → FileHeader) (es : List DirectoryEntry) (name : List ℕ)
    → Files f es
    → Files f (remove_first es name)
unfolding remove_first
Files-remove_first f [] name w = tt
Files-remove_first f (e ∷ es) name w = elim (Bool-cases (names e name)) [
  | inl hit ↦ simp hit (λ off. cc, w.1)
  | inr miss ↦ simp miss (w.0, Files-remove_first f es name w.1)
]
