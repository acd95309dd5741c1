-- ===== src/Directory/Update.antt =====
-- `Directory::Add` as a change of the map from names to sectors.
use nach_osx.Prelude.{
  if◌then◌else◌, Bool-cases, length, ℤ, ℕ, ◌+◌, ◌≡◌, refl, ap, ◌∙◌, ◌≢◌, ◌⊎◌, inl, inr, Bool, true,
  false, not, ◌||◌, none, some, List, [], ◌∷◌, arith,
}
use nach_osx.CString.{strncpy, strncmp_eq-strncpy, strncmp_eq_refl, length-strncpy}
use nach_osx.Directory.{file_name_max_len, DirectoryEntry, Directory, add_loop, add}
use nach_osx.Directory.Lookup.{
  same_name, same_name_sym, same_name_trans, lookup, Absent, Entries, IsDirectory, Absent-lookup,
  Absent-same_name, position, find_index_lem, Placed, missing, placed, position-Placed,
}

-- Some entry is not in use.
abbrev pub has_room : List DirectoryEntry → Bool
has_room [] = false
has_room (e ∷ es) = not e.in_use || has_room es

module _ (name : List ℕ) (s : ℤ) where
  copy_names :
      (e : DirectoryEntry) (n : List ℕ)
      → length e.name ≡ file_name_max_len + 1
      → same_name (strncpy file_name_max_len e.name name) n ≡ same_name name n
  copy_names e n h = strncmp_eq-strncpy file_name_max_len e.name name n (omega arith)

  add_loop-full :
      (es : List DirectoryEntry) → has_room es ≡ false → add_loop es name s ≡ (false, es)
  unfolding add_loop
  add_loop-full [] h = refl
  add_loop-full (e ∷ es) h = ground (arith, add_loop-full es)

  add_loop_done : (es : List DirectoryEntry) → (add_loop es name s).0 ≡ has_room es
  unfolding add_loop
  add_loop_done [] = refl
  add_loop_done (e ∷ es) = ground (arith, add_loop_done es)

  length-add_loop : (es : List DirectoryEntry) → length (add_loop es name s).1 ≡ length es
  unfolding add_loop
  length-add_loop [] = refl
  length-add_loop (e ∷ es) = ground (arith, length-add_loop es)

  lookup-add_loop :
      (es : List DirectoryEntry) (n : List ℕ)
      → Entries es
      → Absent es name
      → has_room es ≡ true
      → lookup (add_loop es name s).1 n ≡ (if same_name name n then some s else lookup es n)
  unfolding add_loop
  lookup-add_loop [] n w a h = cc
  lookup-add_loop (e ∷ es) n w a h = elim (Bool-cases e.in_use) [
    | inl used ↦ ground (
      arith,
      used,
      lookup-add_loop es n w.2 a.1,
      same_name_trans e.name n name,
      same_name_sym n name,
    )
    | inr free ↦ ground (arith, free, copy_names e n w.0)
  ]

  abbrev filled : DirectoryEntry → DirectoryEntry
  filled e = record { in_use = true; sector = s; name = strncpy file_name_max_len e.name name }

  add_loop_used :
      (e : DirectoryEntry) (es : List DirectoryEntry)
      → e.in_use ≡ true
      → (add_loop (e ∷ es) name s).1 ≡ e ∷ (add_loop es name s).1
  unfolding add_loop
  add_loop_used e es used = simp used

  add_loop_free :
      (e : DirectoryEntry) (es : List DirectoryEntry)
      → e.in_use ≡ false
      → (add_loop (e ∷ es) name s).1 ≡ filled e ∷ es
  unfolding add_loop
  add_loop_free e es free = simp free

  Absent-add_loop :
      (es : List DirectoryEntry) (n : List ℕ)
      → Entries es
      → same_name name n ≡ false
      → Absent es n
      → Absent (add_loop es name s).1 n
  unfolding add_loop
  Absent-add_loop [] n w other a = tt
  Absent-add_loop (e ∷ es) n w other a = elim (Bool-cases e.in_use) [
    | inl used ↦ rw (add_loop_used e es used) (a.0, Absent-add_loop es n w.2 other a.1)
    | inr free ↦ rw (add_loop_free e es free) (rw (copy_names e n w.0) other, a.1)
  ]

  Entries-add_loop :
      (es : List DirectoryEntry) → Entries es → Absent es name → Entries (add_loop es name s).1
  unfolding add_loop
  Entries-add_loop [] w a = tt
  Entries-add_loop (e ∷ es) w a = elim (Bool-cases e.in_use) [
    | inl used ↦ rw (add_loop_used e es used) (
      w.0,
      λ _. Absent-add_loop es e.name w.2 (ground (arith, same_name_sym name e.name)) (w.1 used),
      Entries-add_loop es w.2 a.1,
    )
    | inr free ↦ rw (add_loop_free e es free) (
      length-strncpy file_name_max_len e.name name ∙ w.0,
      λ _.
          Absent-same_name es name (strncpy file_name_max_len e.name name)
            (ground (
              arith,
              same_name_sym name (strncpy file_name_max_len e.name name),
              copy_names e name w.0,
              strncmp_eq_refl file_name_max_len name,
            ))
            a.1,
      w.2,
    )
  ]

-- How `Add` ends.
pub data Added (d : Directory) (name : List ℕ) (s : ℤ) (r : Bool) (d' : Directory) : Type 0 where
  refused :
      (lookup d.table name ≢ none) ⊎ (has_room d.table ≡ false)
      → r ≡ false
      → d' ≡ d
      → Added d name s r d'
  inserted :
      lookup d.table name ≡ none
      → has_room d.table ≡ true
      → r ≡ true
      → IsDirectory d'
      → ((n : List ℕ) → lookup d'.table n ≡ (if same_name name n then some s else lookup d.table n))
      → Added d name s r d'

add_missing :
    (d : Directory) (name : List ℕ) (s : ℤ)
    → position d.table name ≡ none
    → add d name s ≡ ((add_loop d.table name s).0, record d { table = (add_loop d.table name s).1 })
unfolding add
add_missing d name s p = rw (find_index_lem d name, p)

add_present :
    (d : Directory) (name : List ℕ) (s : ℤ) (k : ℕ)
    → position d.table name ≡ some k
    → add d name s ≡ (false, d)
unfolding add
add_present d name s k p = rw (find_index_lem d name, p) (ground arith)

-- `Add` refuses a name that is in the directory and a full table, and then changes nothing. Else the
-- name leads to the new sector, all other names are as before, and names stay unique.
pub add-Added :
    (d : Directory) (name : List ℕ) (s : ℤ)
    → IsDirectory d
    → Added d name s (add d name s).0 (add d name s).1
add-Added d name s v = by_place (position-Placed d.table name)
  where
    by_place :
        Placed d.table name (position d.table name)
        → Added d name s (add d name s).0 (add d name s).1
    by_place (placed k p lt n l) =
        let e = add_present d name s k p in
        refused (inl (λ q. cc)) (ap (λ (x : Bool × Directory). x.0) e)
          (ap (λ (x : Bool × Directory). x.1) e)
    by_place (missing p l) = elim (Bool-cases (has_room d.table)) [
      | inl room ↦ rw (add_missing d name s p) (
          inserted l room (add_loop_done name s d.table ∙ room)
            (record {
              entries = Entries-add_loop name s d.table v.entries (Absent-lookup d.table name l);
              filled = length-add_loop name s d.table ∙ v.filled;
            })
            (λ n. lookup-add_loop name s d.table n v.entries (Absent-lookup d.table name l) room))
      | inr full ↦
          rw (add_missing d name s p)
            (rw (add_loop-full name s d.table full) (refused (inr full) refl refl))
    ]

-- `Add` of a name that is not in the directory is its loop.
pub add-add_loop :
    (d : Directory) (name : List ℕ) (s : ℤ)
    → lookup d.table name ≡ none
    → add d name s ≡ ((add_loop d.table name s).0, record d { table = (add_loop d.table name s).1 })
add-add_loop d name s l = elim (position-Placed d.table name) [
  | missing p _ ↦ add_missing d name s p
  | placed k p lt n q ↦ cc
]
