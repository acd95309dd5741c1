-- ===== src/FileSystem/Histories.antt =====
-- Sequences of file system calls: the disk stays consistent, and a file that was made can be opened.
use nach_osx.Prelude.{
  if◌then◌else◌, lt→ltb, Option-cases, length, pos, Outcome, ok, ◌>>=◌, ok-injective, ℕ, ◌≤◌, ◌<◌,
  ◌≡◌, refl, sym, ap, ◌∙◌, subst, inl, inr, Bool, true, Option, none, some, List, [], ◌∷◌, arith,
}
use nach_osx.BitMap.Count.{free_bits}
use nach_osx.CString.{strncmp_eq_refl}
use nach_osx.Directory.{file_name_max_len}
use nach_osx.Directory.Lookup.{
  lookup, same_name, find-lookup, lookup-Absent, Absent-lookup, Absent-same_name,
}
use nach_osx.FileHeader.{FileHeader, num_direct}
use nach_osx.FileHeader.Allocation.{sectors_for}
use nach_osx.FileSystem.{
  Disk, disk_sectors, fetch_free_map, fetch_directory, fetch_header, open_sector, create, open_file,
  remove,
}
use nach_osx.FileSystem.Layout.{Consistent, lookup-Files}
use nach_osx.FileSystem.Creating.{Created, made, not_made, create-Created}
use nach_osx.FileSystem.Removing.{Removal, not_found, gone, remove-Removal}

pub data Call : Type 0 where
  creates : FileHeader → List ℕ → ℕ → Call
  opens : List ℕ → Call
  removes : List ℕ → Call

-- A call that ends leaves its disk to the next.
pub step : Disk → Call → Outcome Disk
step d (creates memory name size) = do (r, d') ← create memory name size d; ok d'
step d (opens name) = do h ← open_file name d; ok d
step d (removes name) = do (r, d') ← remove name d; ok d'

pub run : Disk → List Call → Outcome Disk
run d [] = ok d
run d (c ∷ cs) = do d' ← step d c; run d' cs

-- The call stays below the size that a header has room for.
abbrev pub Fits : Call → Type 0
Fits (creates memory name size) =
    (length memory.data_sectors ≡ num_direct) × (sectors_for size ≤ num_direct)
Fits (opens name) = Unit {0}
Fits (removes name) = Unit {0}

abbrev pub AllFit : List Call → Type 0
AllFit [] = Unit {0}
AllFit (c ∷ cs) = Fits c × AllFit cs

-- What `Open` answers: NULL for a name that is not there, else the header of the file.
open_file_missing :
    (d : Disk) (name : List ℕ) → lookup d.directory_file name ≡ none → open_file name d ≡ ok none
unfolding open_file open_sector fetch_directory
open_file_missing d name l = rw (find-lookup (fetch_directory d) name, l)

open_file_there :
    (d : Disk) (name : List ℕ) (s : ℕ)
    → lookup d.directory_file name ≡ some (pos s)
    → s < disk_sectors
    → open_file name d ≡ ok (some (d.header s))
unfolding open_file open_sector fetch_directory fetch_header
open_file_there d name s l lt =
    rw (find-lookup (fetch_directory d) name, l, lt→ltb s disk_sectors lt)

module _ (reserved : ℕ → ℕ) where
  Created-Consistent :
      {d d' : Disk} {name : List ℕ} {size : ℕ} {r : Bool}
      → Consistent reserved d
      → Created reserved d name size r d'
      → Consistent reserved d'
  Created-Consistent c (not_made _ _ same) = subst (Consistent reserved) (sym same) c
  Created-Consistent c (made s _ _ c' _ _ _ _ _) = c'

  Removal-Consistent :
      {d d' : Disk} {name : List ℕ} {r : Bool}
      → Consistent reserved d
      → Removal reserved d name r d'
      → Consistent reserved d'
  Removal-Consistent c (not_found _ _ same) = subst (Consistent reserved) (sym same) c
  Removal-Consistent c (gone s _ _ c' _ _ _) = c'

  opens_ends :
      (d : Disk) (name : List ℕ)
      → Consistent reserved d
      → (h : Option FileHeader) × (open_file name d ≡ ok h)
  opens_ends d name c = elim (Option-cases (lookup d.directory_file name)) [
    | inl l ↦ (none, open_file_missing d name l)
    | inr (x, l) ↦
        let (s, at, lt, v) = lookup-Files d.header d.directory_file name x c.files l in
        (some (d.header s), open_file_there d name s (l ∙ ap some at) lt)
  ]

  step-Consistent :
      (d : Disk) (call : Call)
      → Fits call
      → Consistent reserved d
      → (d' : Disk) × (step d call ≡ ok d') × Consistent reserved d'
  unfolding step
  step-Consistent d (creates memory name size) fits c =
      let (r, d', e, end) = create-Created reserved memory name size d c fits.0 fits.1 in
      (d', rw e, Created-Consistent c end)
  step-Consistent d (opens name) fits c = let (h, e) = opens_ends d name c in (d, rw e, c)
  step-Consistent d (removes name) fits c =
      let (r, d', e, end) = remove-Removal reserved name d c in (d', rw e, Removal-Consistent c end)

  -- Any sequence of calls whose new files fit a header ends on a consistent disk: no ASSERT fails, no
  -- access leaves its array, no two files ever share a sector and no sector is lost.
  pub run-Consistent :
      (calls : List Call) (d : Disk)
      → AllFit calls
      → Consistent reserved d
      → (d' : Disk) × (run d calls ≡ ok d') × Consistent reserved d'
  unfolding run
  run-Consistent [] d fits c = (d, refl, c)
  run-Consistent (call ∷ calls) d fits c =
      let (d₁, e, c₁) = step-Consistent d call fits.0 c in
      let (d₂, e', c₂) = run-Consistent calls d₁ fits.1 c₁ in (d₂, rw (e, e'), c₂)

module _ (reserved : ℕ → ℕ) (memory : FileHeader) (name : List ℕ) (size : ℕ) (d d' : Disk)
    (c : Consistent reserved d) (room : length memory.data_sectors ≡ num_direct)
    (fits : sectors_for size ≤ num_direct)
    (success : create memory name size d ≡ ok (true, d')) where
  created : Created reserved d name size true d'
  created =
      let (r, d₁, e, end) = create-Created reserved memory name size d c room fits in
      let same = ok-injective (sym e ∙ success) in
      subst (λ (p : Bool × Disk). Created reserved d name size p.0 p.1) same end

  -- After a `Create`, on a consistent disk and of a file of at most NumDirect sectors, that answers true,
  -- `Open` finds a file of the size asked for, under every name that agrees with the name given in its
  -- first nine characters.
  pub open_file-create :
      (n : List ℕ)
      → same_name name n ≡ true
      → (h : FileHeader) × (open_file n d' ≡ ok (some h)) × (h.num_bytes ≡ size)
  open_file-create n same = opened created
    where
      opened :
          Created reserved d name size true d'
          → (h : FileHeader) × (open_file n d' ≡ ok (some h)) × (h.num_bytes ≡ size)
      opened (not_made _ no_success _) = cc
      opened (made s _ _ c' law bytes _ _ _) =
          let l : lookup d'.directory_file n ≡ some (pos s) =
            law n ∙ ap (λ (b : Bool). if b then some (pos s) else lookup d.directory_file n) same in
          let (t, at, lt, v) = lookup-Files d'.header d'.directory_file n (pos s) c'.files l in
          (d'.header s, open_file_there d' n s l (ground arith), bytes)

  -- After a `Create`, on a consistent disk and of a file of at most NumDirect sectors, that answers true,
  -- `Remove` of the same name answers true and leaves a consistent disk with the lookup of every name and
  -- the number of free sectors from before the `Create`.
  pub remove-create :
      (d'' : Disk) × (remove name d' ≡ ok (true, d''))
      × Consistent reserved d''
      × ((n : List ℕ) → lookup d''.directory_file n ≡ lookup d.directory_file n)
      × (free_bits (fetch_free_map d'') ≡ free_bits (fetch_free_map d))
  remove-create =
      undone created (remove-Removal reserved name d' (Created-Consistent reserved c created))
    where
      undone :
          Created reserved d name size true d'
          → (r : Bool) × (d'' : Disk) × (remove name d' ≡ ok (r, d''))
            × Removal reserved d' name r d''
          → (d'' : Disk) × (remove name d' ≡ ok (true, d''))
            × Consistent reserved d''
            × ((n : List ℕ) → lookup d''.directory_file n ≡ lookup d.directory_file n)
            × (free_bits (fetch_free_map d'') ≡ free_bits (fetch_free_map d))
      undone (not_made _ no_success _) _ = cc
      undone (made s _ _ _ law _ _ _ _) (r, d'', e, not_found l _ _) =
          ground (arith, law name, strncmp_eq_refl file_name_max_len name)
      undone (made s new _ _ law _ sectors _ spent) (r, d'', e, gone t l yes_r c'' law' _ back) =
          let t_is : t ≡ s = ground (arith, law name, strncmp_eq_refl file_name_max_len name) in
          (
            d'',
            e ∙ ap (λ x. ok (x, d'')) yes_r,
            c'',
            λ n. restored n new (law n) (law' n),
            omega (arith, back, spent, ap (λ x. (d'.header x).num_sectors) t_is, sectors),
          )
        where
          restored :
              (n : List ℕ)
              → lookup d.directory_file name ≡ none
              → lookup d'.directory_file n
                ≡ (if same_name name n then some (pos s) else lookup d.directory_file n)
              → lookup d''.directory_file n
                ≡ (if same_name name n then none else lookup d'.directory_file n)
              → lookup d''.directory_file n ≡ lookup d.directory_file n
          restored n l p q = ground (
            arith,
            p,
            q,
            λ (h : same_name name n ≡ true). lookup-Absent d.directory_file n (
                Absent-same_name d.directory_file name n h (Absent-lookup d.directory_file name l)),
          )
