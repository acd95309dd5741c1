-- ===== src/Directory/Lookup.antt =====
-- A directory as a map from names to sectors: what `Find` reports, on well-formed tables.
use nach_osx.Prelude.{
  if◌then◌else◌, Bool-cases, length, get_or, ℤ, pos, minus_one, ℕ, suc, ◌+◌, ◌<◌, ◌≡◌, refl, inl,
  inr, Bool, true, false, Option, none, some, List, [], ◌∷◌, arith,
}
use native.Mathlib.Nat.{zero-add}
use nach_osx.CString.{strncmp_eq, strncmp_eq_sym, strncmp_eq_trans}
use nach_osx.Directory.{
  file_name_max_len, DirectoryEntry, Directory, names, find_index_loop, find_index, no_entry,
  sector_at, find,
}

-- Two strings name the same file: the source compares FileNameMaxLen characters.
abbrev pub same_name : List ℕ → List ℕ → Bool
same_name a b = strncmp_eq file_name_max_len a b

pub same_name_sym : (a b : List ℕ) → same_name a b ≡ same_name b a
same_name_sym = strncmp_eq_sym file_name_max_len

pub same_name_trans :
    (a b c : List ℕ) → same_name a b ≡ true → same_name b c ≡ true → same_name a c ≡ true
same_name_trans = strncmp_eq_trans file_name_max_len

abbrev pub lookup : List DirectoryEntry → List ℕ → Option ℤ
lookup [] name = none
lookup (e ∷ es) name = if names e name then some e.sector else lookup es name

abbrev pub Absent : List DirectoryEntry → List ℕ → Type 0
Absent [] name = Unit {0}
Absent (e ∷ es) name = (names e name ≡ false) × Absent es name

-- Each name array has its 10 bytes, and no two entries in use have the same name.
abbrev pub Entries : List DirectoryEntry → Type 0
Entries [] = Unit {0}
Entries (e ∷ es) =
    (length e.name ≡ file_name_max_len + 1) × (e.in_use ≡ true → Absent es e.name) × Entries es

pub record IsDirectory (d : Directory) : Type 0 where
  pub entries : Entries d.table
  pub filled : length d.table ≡ d.table_size

pub lookup-Absent : (es : List DirectoryEntry) (n : List ℕ) → Absent es n → lookup es n ≡ none
lookup-Absent [] n a = refl
lookup-Absent (e ∷ es) n a = rw a.0 (lookup-Absent es n a.1)

pub Absent-lookup : (es : List DirectoryEntry) (n : List ℕ) → lookup es n ≡ none → Absent es n
Absent-lookup [] n a = tt
Absent-lookup (e ∷ es) n a = elim (Bool-cases (names e n)) [
  | inl hit ↦ cc (rw hit at a)
  | inr miss ↦ (miss, Absent-lookup es n (rw miss at a))
]

-- Absence depends on the name only up to `same_name`.
pub Absent-same_name :
    (es : List DirectoryEntry) (a b : List ℕ) → same_name a b ≡ true → Absent es a → Absent es b
Absent-same_name [] a b s h = tt
Absent-same_name (e ∷ es) a b s h =
    (ground (arith, same_name_trans e.name b a, same_name_sym a b), Absent-same_name es a b s h.1)

-- The place of the entry that has the name.
unfoldable pub position : List DirectoryEntry → List ℕ → Option ℕ
position [] name = none
position (e ∷ es) name =
    let rest = position es name in
    if names e name then some 0 else elim rest [ none ↦ none | some k ↦ some (suc k) ]

abbrev pub index_from : ℕ → Option ℕ → ℤ
index_from i none = minus_one
index_from i (some k) = pos (i + k)

find_index_loop_lem :
    (es : List DirectoryEntry) (i : ℕ) (name : List ℕ)
    → find_index_loop es i name ≡ index_from i (position es name)
unfolding find_index_loop position
find_index_loop_lem [] i name = refl
find_index_loop_lem (e ∷ es) i name = ground (arith, find_index_loop_lem es (i + 1) name)

pub find_index_lem :
    (d : Directory) (name : List ℕ) → find_index d name ≡ index_from 0 (position d.table name)
unfolding find_index
find_index_lem d name = find_index_loop_lem d.table 0 name

-- What the place says of the map.
pub data Placed (es : List DirectoryEntry) (name : List ℕ) (p : Option ℕ) : Type 0 where
  missing : p ≡ none → lookup es name ≡ none → Placed es name p
  placed :
      (k : ℕ)
      → p ≡ some k
      → k < length es
      → names (get_or es k no_entry) name ≡ true
      → lookup es name ≡ some (get_or es k no_entry).sector
      → Placed es name p

pub position-Placed : (es : List DirectoryEntry) (name : List ℕ) → Placed es name (position es name)
unfolding position
position-Placed [] name = missing refl refl
position-Placed (e ∷ es) name = elim (Bool-cases (names e name)) [
  | inl hit ↦ placed 0 (rw hit) (omega arith) hit (rw hit)
  | inr miss ↦ elim (position-Placed es name) [
    | missing p l ↦ missing (rw (miss, p)) (rw miss l)
    | placed k p lt n l ↦ placed (suc k) (rw (miss, p)) (omega arith) n (rw miss l)
  ]
]

abbrev pub sector_or_minus_one : Option ℤ → ℤ
sector_or_minus_one none = minus_one
sector_or_minus_one (some s) = s

-- `Find` gives the sector that the map has for the name, and -1 for a name that is not in it.
pub find-lookup :
    (d : Directory) (name : List ℕ) → find d name ≡ sector_or_minus_one (lookup d.table name)
unfolding find sector_at
find-lookup d name = elim (position-Placed d.table name) [
  | missing p l ↦ rw (find_index_lem d name, p, l)
  | placed k p lt n l ↦ rw (find_index_lem d name, p, l) (ground (arith, zero-add k))
]
