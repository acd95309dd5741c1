-- ===== src/OpenFilesTable/Start.antt =====
-- A well-formed table, and the table that the constructor makes.
use nach_osx.Prelude.{
  ltb, ◌==◌, if◌then◌else◌, lt→ltb, ==_iff, Bool-cases, length, get_or, set, length-set,
  get_or-set_self, get_or-set_ne, ℤ, pos, minus_one, ok, ℕ, zero, suc, ◌<◌, ◌≡◌, refl, ap, ◌∙◌, inl,
  inr, Bool, List, [], ◌∷◌, arith,
}
use nach_osx.BitMap.{bits_in_word, div_round_up}
use nach_osx.BitMap.Laws.{is_marked, IsValid, mark_lem}
use nach_osx.BitMap.Search.{create_lem}
use nach_osx.OpenFilesTable.{
  OpenFilesTable, table_size, memset_minus_one, get_entry, put_entry, create,
}

abbrev pub is_open : OpenFilesTable → ℕ → Bool
is_open t i = is_marked t.open_files_map i

abbrev pub entry : OpenFilesTable → ℕ → ℤ
entry t i = get_or t.open_files i minus_one

-- The map and the array have a place for each handle below tableSize.
pub record IsTable (t : OpenFilesTable) : Type 0 where
  pub valid : IsValid t.open_files_map
  pub size : t.open_files_map.num_bits ≡ table_size
  pub room : length t.open_files ≡ table_size

pub get_entry_lem :
    (t : OpenFilesTable) (i : ℕ) → IsTable t → i < table_size → get_entry t i ≡ ok (entry t i)
unfolding get_entry
get_entry_lem t i v h = rw (lt→ltb i (length t.open_files) (omega (arith, v.room)))

pub put_entry_lem :
    (t : OpenFilesTable) (i : ℕ) (u : ℤ)
    → length t.open_files ≡ table_size
    → i < table_size
    → put_entry t (pos i) u ≡ ok (record t { open_files = set t.open_files i u })
unfolding put_entry
put_entry_lem t i u v h = rw (lt→ltb i (length t.open_files) (omega arith))

-- A write of entry `i`, read at any place.
pub entry-set :
    (xs : List ℤ) (i j : ℕ) (u : ℤ)
    → i < length xs
    → get_or (set xs i u) j minus_one ≡ (if i == j then u else get_or xs j minus_one)
entry-set xs i j u h = elim (Bool-cases (i == j)) [
  | inl same ↦ rw (same, ← (==_iff i j).0 same) (get_or-set_self xs i u minus_one h)
  | inr other ↦ rw other (get_or-set_ne xs i j u minus_one (ground arith))
]

length-memset : (n : ℕ) (xs : List ℤ) → length (memset_minus_one n xs) ≡ length xs
unfolding memset_minus_one
length-memset n [] = refl
length-memset zero (x ∷ xs) = refl
length-memset (suc n) (x ∷ xs) = ap suc (length-memset n xs)

memset_lem :
    (n j : ℕ) (xs : List ℤ)
    → get_or (memset_minus_one n xs) j minus_one
      ≡ (if ltb j n then minus_one else get_or xs j minus_one)
unfolding memset_minus_one
memset_lem n j [] = ground arith
memset_lem zero j (x ∷ xs) = ground arith
memset_lem (suc n) zero (x ∷ xs) = ground arith
memset_lem (suc n) (suc j) (x ∷ xs) = ground (arith, memset_lem n j xs)

-- What the entries of a new table hold: the memory's, but for those that are written.
abbrev pub first_entry : List ℤ → ℕ → ℤ
first_entry memory j =
    if ltb j 3 then pos j else if ltb j 25 then minus_one else get_or memory j minus_one

-- A new table has the handles 0, 1 and 2 open, for the Unix handles 0, 1 and 2. The `memset` counts
-- bytes, so only the entries below 25 are -1: those from 25 on hold what the memory held.
pub create-IsTable :
    (map_memory : List ℕ) (memory : List ℤ)
    → length map_memory ≡ div_round_up table_size bits_in_word
    → length memory ≡ table_size
    → (t : OpenFilesTable) × (create map_memory memory ≡ ok t)
      × IsTable t
      × (t.usage ≡ pos 1)
      × ((j : ℕ) → j < table_size → is_open t j ≡ ltb j 3)
      × ((j : ℕ) → entry t j ≡ first_entry memory j)
unfolding create
create-IsTable map_memory memory h k =
    let (m, e, v, size, free) = create_lem map_memory table_size h in
    let (m₀, e₀, u₀) = mark_lem m 0 v (omega arith) in
    let (m₁, e₁, u₁) = mark_lem m₀ 1 u₀.valid (omega (arith, u₀.same_size)) in
    let (m₂, e₂, u₂) = mark_lem m₁ 2 u₁.valid (omega (arith, u₀.same_size, u₁.same_size)) in
    let xs : List ℤ = memset_minus_one 25 memory in
    let n : length xs ≡ table_size = length-memset 25 memory ∙ k in
    let ys : List ℤ = set xs 0 (pos 0) in
    let n₁ : length ys ≡ table_size = length-set xs 0 (pos 0) ∙ n in
    let zs : List ℤ = set ys 1 (pos 1) in
    let n₂ : length zs ≡ table_size = length-set ys 1 (pos 1) ∙ n₁ in
    let t : OpenFilesTable = record { open_files = xs; open_files_map = m₂; usage = pos 1 } in
    (
      record t { open_files = set zs 2 (pos 2) },
      rw (
        e,
        e₀,
        e₁,
        e₂,
        put_entry_lem t 0 (pos 0) n (omega arith),
        put_entry_lem (record t { open_files = ys }) 1 (pos 1) n₁ (omega arith),
        put_entry_lem (record t { open_files = zs }) 2 (pos 2) n₂ (omega arith),
      ),
      record {
        valid = u₂.valid;
        size = omega (arith, u₀.same_size, u₁.same_size, u₂.same_size);
        room = length-set zs 2 (pos 2) ∙ n₂;
      },
      refl,
      λ j lt. ground (arith, u₂.bits j, u₁.bits j, u₀.bits j, free j),
      λ j. ground (
        arith,
        entry-set zs 2 j (pos 2) (omega arith),
        entry-set ys 1 j (pos 1) (omega arith),
        entry-set xs 0 j (pos 0) (omega arith),
        memset_lem 25 j memory,
      ),
    )
