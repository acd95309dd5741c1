-- ===== src/Directory/Removal.antt =====
-- What `Directory::Remove` does on each of its ways out.
use nach_osx.Prelude.{
  if◌then◌else◌, Bool-cases, length, ℤ, pos, ℕ, zero, suc, ◌≡◌, refl, ◌∙◌, ◌≢◌, inl, inr, Bool,
  true, false, none, some, List, [], ◌∷◌, arith,
}
use native.Mathlib.Nat.{zero-add}
use nach_osx.Directory.{DirectoryEntry, Directory, names, clear_entry, remove}
use nach_osx.Directory.Lookup.{
  same_name, same_name_sym, same_name_trans, lookup, Absent, Entries, IsDirectory, lookup-Absent,
  Absent-same_name, position, find_index_lem, Placed, missing, placed, position-Placed,
}

-- `Remove` at the entry that has the name.
unfoldable pub remove_first : List DirectoryEntry → List ℕ → List DirectoryEntry
remove_first [] name = []
remove_first (e ∷ es) name =
    if names e name then record e { in_use = false } ∷ es else e ∷ remove_first es name

clear_entry_first :
    (es : List DirectoryEntry) (name : List ℕ) (k : ℕ)
    → position es name ≡ some k
    → clear_entry es (pos k) ≡ remove_first es name
unfolding clear_entry position remove_first
clear_entry_first [] name k p = cc
clear_entry_first (e ∷ es) name zero p = ground arith
clear_entry_first (e ∷ es) name (suc k) p = ground (arith, clear_entry_first es name k)

length-remove_first :
    (es : List DirectoryEntry) (name : List ℕ) → length (remove_first es name) ≡ length es
unfolding remove_first
length-remove_first [] name = refl
length-remove_first (e ∷ es) name = ground (arith, length-remove_first es name)

lookup-remove_first :
    (es : List DirectoryEntry) (name n : List ℕ)
    → Entries es
    → lookup (remove_first es name) n ≡ (if same_name name n then none else lookup es n)
unfolding remove_first
lookup-remove_first [] name n w = ground arith
lookup-remove_first (e ∷ es) name n w = elim (Bool-cases (names e name)) [
  | inl hit ↦ elim (Bool-cases (same_name name n)) [
    | inl same ↦ ground (
      arith,
      lookup-Absent es n (
          Absent-same_name es e.name n (same_name_trans e.name name n (ground arith) same)
            (w.1 (ground arith))),
    )
    | inr other ↦ ground (arith, same_name_trans name e.name n, same_name_sym name e.name)
  ]
  | inr miss ↦ ground (
    arith,
    lookup-remove_first es name n w.2,
    same_name_trans e.name n name,
    same_name_sym n name,
  )
]

Absent-remove_first :
    (es : List DirectoryEntry) (name n : List ℕ) → Absent es n → Absent (remove_first es name) n
unfolding remove_first
Absent-remove_first [] name n a = tt
Absent-remove_first (e ∷ es) name n a = elim (Bool-cases (names e name)) [
  | inl hit ↦ simp hit (refl, a.1)
  | inr miss ↦ simp miss (a.0, Absent-remove_first es name n a.1)
]

Entries-remove_first :
    (es : List DirectoryEntry) (name : List ℕ) → Entries es → Entries (remove_first es name)
unfolding remove_first
Entries-remove_first [] name w = tt
Entries-remove_first (e ∷ es) name w = elim (Bool-cases (names e name)) [
  | inl hit ↦ simp hit (w.0, λ off. cc, w.2)
  | inr miss ↦
      simp miss (
        w.0,
        λ used. Absent-remove_first es name e.name (w.1 used),
        Entries-remove_first es name w.2,
      )
]

-- How `Remove` ends.
pub data Removed (d : Directory) (name : List ℕ) (r : Bool) (d' : Directory) : Type 0 where
  not_there : lookup d.table name ≡ none → r ≡ false → d' ≡ d → Removed d name r d'
  removed :
      lookup d.table name ≢ none
      → r ≡ true
      → IsDirectory d'
      → ((n : List ℕ) → lookup d'.table n ≡ (if same_name name n then none else lookup d.table n))
      → Removed d name r d'

remove_missing :
    (d : Directory) (name : List ℕ) → position d.table name ≡ none → remove d name ≡ (false, d)
unfolding remove
remove_missing d name p = rw (find_index_lem d name, p)

remove_placed :
    (d : Directory) (name : List ℕ) (k : ℕ)
    → position d.table name ≡ some k
    → remove d name ≡ (true, record d { table = remove_first d.table name })
unfolding remove
remove_placed d name k p =
    rw (find_index_lem d name, p) (ground (arith, zero-add k, clear_entry_first d.table name k p))

-- `Remove` of a name that is not in the directory changes nothing. Else the name, and every name that
-- agrees with it in the first nine characters, is gone, and the other names are as before.
pub remove-Removed :
    (d : Directory) (name : List ℕ)
    → IsDirectory d
    → Removed d name (remove d name).0 (remove d name).1
remove-Removed d name v = by_place (position-Placed d.table name)
  where
    by_place :
        Placed d.table name (position d.table name)
        → Removed d name (remove d name).0 (remove d name).1
    by_place (missing p l) = rw (remove_missing d name p) (not_there l refl refl)
    by_place (placed k p lt n l) = rw (remove_placed d name k p) (
        removed (λ q. cc) refl
          (record {
            entries = Entries-remove_first d.table name v.entries;
            filled = length-remove_first d.table name ∙ v.filled;
          })
          (λ n. lookup-remove_first d.table name n v.entries))

-- `Remove` of a name that is in the directory takes its entry out of use.
pub remove-remove_first :
    (d : Directory) (name : List ℕ) {x : ℤ}
    → lookup d.table name ≡ some x
    → remove d name ≡ (true, record d { table = remove_first d.table name })
remove-remove_first d name l = elim (position-Placed d.table name) [
  | missing p q ↦ cc
  | placed k p lt n q ↦ remove_placed d name k p
]
