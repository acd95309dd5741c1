-- ===== src/FileSystem/Accounting.antt =====
-- Which files use a sector, counted: the header of each file in the directory, and its data.
use nach_osx.Prelude.{
  ◌==◌, if◌then◌else◌, Bool-cases, length, get_or, ℤ, pos, negsuc, minus_one, int_eq, ℕ, zero, suc,
  ◌+◌, ◌≤◌, ◌<◌, ◌≡◌, refl, inl, inr, Bool, true, false, some, List, [], ◌∷◌, arith,
}
use nach_osx.Directory.{DirectoryEntry, names, add_loop}
use nach_osx.Directory.Update.{has_room}
use nach_osx.Directory.Removal.{remove_first}
use nach_osx.Directory.Lookup.{lookup}
use nach_osx.FileHeader.{FileHeader}
use nach_osx.FileHeader.Sectors.{has, Distinct, Holds}
use nach_osx.FileSystem.{update_header}

abbrev pub one_if : Bool → ℕ
one_if true = 1
one_if false = 0

-- How often sector `j` stands in the `n` entries of the table from place `i` on.
abbrev pub listed : ℕ → ℕ → List ℤ → ℕ → ℕ
listed zero i ds j = 0
listed (suc n) i ds j = one_if (int_eq (get_or ds i minus_one) (pos j)) + listed n (i + 1) ds j

abbrev pub count : ℕ → List ℕ → ℕ
count j [] = 0
count j (s ∷ ss) = one_if (s == j) + count j ss

-- How often the file of an entry uses sector `j`, for its header and for its data.
unfoldable pub file_uses : FileHeader → ℤ → ℕ → ℕ
file_uses h sector j = one_if (int_eq sector (pos j)) + listed h.num_sectors 0 h.data_sectors j

abbrev pub header_at : (ℕ → FileHeader) → ℤ → FileHeader
header_at f (pos s) = f s
header_at f (negsuc s) = record { num_bytes = 0; num_sectors = 0; data_sectors = [] }

pub entry_uses : (ℕ → FileHeader) → DirectoryEntry → ℕ → ℕ
entry_uses f e j = if e.in_use then file_uses (header_at f e.sector) e.sector j else 0

unfoldable pub uses : (ℕ → FileHeader) → List DirectoryEntry → ℕ → ℕ
unfolding entry_uses
uses f [] j = 0
uses f (e ∷ es) j = entry_uses f e j + uses f es j

pub listed-Holds :
    (ss : List ℕ) (i : ℕ) (ds : List ℤ) (j : ℕ)
    → Holds ds i ss
    → listed (length ss) i ds j ≡ count j ss
listed-Holds [] i ds j h = refl
listed-Holds (s ∷ ss) i ds j h = rw h.0 (omega (arith, listed-Holds ss (i + 1) ds j h.1))

count_absent : (j : ℕ) (ss : List ℕ) → has j ss ≡ false → count j ss ≡ 0
count_absent j [] h = refl
count_absent j (s ∷ ss) h = ground (arith, count_absent j ss)

pub count-Distinct : (j : ℕ) (ss : List ℕ) → Distinct ss → count j ss ≡ one_if (has j ss)
count-Distinct j [] d = refl
count-Distinct j (s ∷ ss) d = ground (arith, count-Distinct j ss d.1, count_absent j ss)

pub count-has : (j : ℕ) (ss : List ℕ) → has j ss ≡ true → 0 < count j ss
count-has j [] h = cc
count-has j (s ∷ ss) h = ground (arith, count-has j ss)

pub has-count : (j : ℕ) (ss : List ℕ) → 0 < count j ss → has j ss ≡ true
has-count j [] h = absurd (omega arith)
has-count j (s ∷ ss) h = ground (arith, has-count j ss)

-- A list that counts no sector twice is distinct.
pub Distinct-count : (ss : List ℕ) → ((j : ℕ) → has j ss ≡ true → count j ss ≤ 1) → Distinct ss
Distinct-count [] h = tt
Distinct-count (s ∷ ss) h = (
  elim (Bool-cases (has s ss)) [
    | inl again ↦ ground (arith, h s, count-has s ss again)
    | inr once ↦ once
  ],
  Distinct-count ss (λ j m. ground (arith, h j)),
)

-- A header that is written to a sector which no file uses changes the account of no file.
file_uses-update :
    (f : ℕ → FileHeader) (s : ℕ) (h : FileHeader) (x : ℤ) (j : ℕ)
    → file_uses (header_at f x) x s ≡ 0
    → file_uses (header_at (update_header f s h) x) x j ≡ file_uses (header_at f x) x j
unfolding file_uses
file_uses-update f s h (negsuc t) j unused = refl
file_uses-update f s h (pos t) j unused = elim (Bool-cases (s == t)) [
  | inl same ↦ absurd (ground arith)
  | inr other ↦ rw other
]

entry_uses-update :
    (f : ℕ → FileHeader) (s : ℕ) (h : FileHeader) (e : DirectoryEntry) (j : ℕ)
    → entry_uses f e s ≡ 0
    → entry_uses (update_header f s h) e j ≡ entry_uses f e j
unfolding entry_uses
entry_uses-update f s h e j unused = elim (Bool-cases e.in_use) [
  | inl used ↦ simp used (file_uses-update f s h e.sector j (simp used at unused))
  | inr free ↦ simp free
]

pub uses-update :
    (f : ℕ → FileHeader) (s : ℕ) (h : FileHeader) (es : List DirectoryEntry) (j : ℕ)
    → uses f es s ≡ 0
    → uses (update_header f s h) es j ≡ uses f es j
unfolding uses
uses-update f s h [] j unused = refl
uses-update f s h (e ∷ es) j unused =
    omega (arith, entry_uses-update f s h e j (omega arith), uses-update f s h es j (omega arith))

-- The new entry of `Add` brings in its own file and leaves the others.
pub uses-add_loop :
    (f : ℕ → FileHeader) (es : List DirectoryEntry) (name : List ℕ) (s : ℤ) (j : ℕ)
    → has_room es ≡ true
    → uses f (add_loop es name s).1 j ≡ uses f es j + file_uses (header_at f s) s j
unfolding uses entry_uses add_loop
uses-add_loop f [] name s j room = cc
uses-add_loop f (e ∷ es) name s j room = elim (Bool-cases e.in_use) [
  | inl used ↦ ground (arith, used, uses-add_loop f es name s j)
  | inr free ↦ ground (arith, free)
]

-- The entry that `Remove` takes out of use takes its file out of the account.
pub uses-remove_first :
    (f : ℕ → FileHeader) (es : List DirectoryEntry) (name : List ℕ) (x : ℤ) (j : ℕ)
    → lookup es name ≡ some x
    → uses f es j ≡ uses f (remove_first es name) j + file_uses (header_at f x) x j
unfolding uses entry_uses remove_first
uses-remove_first f [] name x j l = cc
uses-remove_first f (e ∷ es) name x j l = elim (Bool-cases (names e name)) [
  | inl hit ↦ ground (arith, hit)
  | inr miss ↦ ground (arith, miss, uses-remove_first f es name x j)
]
