-- ===== src/OpenFilesTable/Opening.antt =====
-- `NachosOpenFilesTable::Open` on each of its ways out.
use nach_osx.Prelude.{
  ◌==◌, if◌then◌else◌, Bool-cases, set, length-set, ℤ, pos, minus_one, int_eq, ok, ℕ, zero, suc,
  ◌+◌, ◌<◌, ◌≡◌, refl, ap, ◌∙◌, ◌⊎◌, inl, inr, Bool, true, false, ◌&&◌, arith,
}
use nach_osx.BitMap.{BitMap, test, find}
use nach_osx.BitMap.Laws.{test_lem}
use nach_osx.BitMap.Search.{Found, full, first, find_lem}
use nach_osx.OpenFilesTable.{OpenFilesTable, table_size, get_entry, search_loop, open_file}
use nach_osx.OpenFilesTable.Start.{is_open, entry, IsTable, get_entry_lem, put_entry_lem, entry-set}

-- Handle `i` is in use, and stands for `u`.
abbrev pub stands_for : OpenFilesTable → ℤ → ℕ → Bool
stands_for t u i = is_open t i && int_eq (entry t i) u

-- What the search finds: the first handle that stands for `u`, or 0.
data Searched (t : OpenFilesTable) (u : ℤ) (r : ℕ) : Type 0 where
  nothing : r ≡ 0 → ((j : ℕ) → j < table_size → stands_for t u j ≡ false) → Searched t u r
  match :
      r < table_size
      → stands_for t u r ≡ true
      → ((j : ℕ) → j < r → stands_for t u j ≡ false)
      → Searched t u r

search_loop_lem :
    (n i : ℕ) (t : OpenFilesTable) (u : ℤ)
    → IsTable t
    → i + n ≡ table_size
    → ((j : ℕ) → j < i → stands_for t u j ≡ false)
    → (r : ℕ) × (search_loop n i t u ≡ ok r) × Searched t u r
unfolding search_loop
search_loop_lem zero i t u v h before = (0, refl, nothing refl (λ j lt. before j (omega arith)))
search_loop_lem (suc n) i t u v h before = elim (Bool-cases (stands_for t u i)) [
  | inl hit ↦ (i, ground (arith, now), match (omega arith) hit before)
  | inr miss ↦
      let (r, e, s) = search_loop_lem n (i + 1) t u v (omega arith) (λ j lt.
        elim (Bool-cases (i == j)) [
          | inl same ↦ ground arith
          | inr other ↦ before j (ground arith)
        ]) in
      (r, ground (arith, now, e), s)
]
  where
    now : (test t.open_files_map (pos i) ≡ ok (is_open t i)) × (get_entry t i ≡ ok (entry t i))
    now = (
      test_lem t.open_files_map i v.valid (omega (arith, v.size)),
      get_entry_lem t i v (omega arith),
    )

ne_zero : (i : ℕ) → 0 < i → (i == 0) ≡ false
ne_zero i h = ground arith

-- How `Open` ends.
pub data Opened (t : OpenFilesTable) (u : ℤ) (r : ℤ) (t' : OpenFilesTable) : Type 0 where
  -- the first handle that stands for `u` is not 0: it is the answer, and nothing changes
  reused :
      (i : ℕ)
      → 0 < i
      → i < table_size
      → stands_for t u i ≡ true
      → ((j : ℕ) → j < i → stands_for t u j ≡ false)
      → r ≡ pos i
      → t' ≡ t
      → Opened t u r t'
  -- no handle does, or 0 does, and all are in use: -1, and nothing changes
  exhausted :
      (stands_for t u 0 ≡ true) ⊎ ((j : ℕ) → j < table_size → stands_for t u j ≡ false)
      → ((j : ℕ) → j < table_size → is_open t j ≡ true)
      → r ≡ minus_one
      → t' ≡ t
      → Opened t u r t'
  -- no handle does, or 0 does, and one is free: the least free handle now stands for `u`
  fresh :
      (i : ℕ)
      → (stands_for t u 0 ≡ true) ⊎ ((j : ℕ) → j < table_size → stands_for t u j ≡ false)
      → i < table_size
      → is_open t i ≡ false
      → ((j : ℕ) → j < i → is_open t j ≡ true)
      → r ≡ pos i
      → IsTable t'
      → t'.usage ≡ t.usage
      → ((j : ℕ) → is_open t' j ≡ (if i == j then true else is_open t j))
      → ((j : ℕ) → entry t' j ≡ (if i == j then u else entry t j))
      → Opened t u r t'

module _ (t : OpenFilesTable) (u : ℤ) (v : IsTable t) where
  abbrev Unknown : Type 0
  Unknown = (stands_for t u 0 ≡ true) ⊎ ((j : ℕ) → j < table_size → stands_for t u j ≡ false)

  -- The part of `Open` that follows an unsuccessful search.
  open_new :
      Unknown
      → search_loop table_size 0 t u ≡ ok 0
      → (r : ℤ) × (m : BitMap) × (find t.open_files_map ≡ ok (r, m)) × Found t.open_files_map r m
      → (r : ℤ) × (t' : OpenFilesTable) × (open_file t u ≡ ok (r, t')) × Opened t u r t'
  unfolding open_file
  open_new unknown e (r, m, e', full is same all) = (
    minus_one,
    t,
    rw (e, e', is, same),
    exhausted unknown (λ j lt. all j (omega (arith, v.size))) refl refl,
  )
  open_new unknown e (r, m, e', first i is lt free below w) =
      let inside : i < table_size = omega (arith, v.size) in
      (
        pos i,
        record t { open_files_map = m; open_files = set t.open_files i u },
        rw (e, e', is, put_entry_lem (record t { open_files_map = m }) i u v.room inside),
        fresh i unknown inside free below refl
            (record {
              valid = w.valid;
              size = w.same_size ∙ v.size;
              room = length-set t.open_files i u ∙ v.room;
            })
            refl w.bits (λ j. entry-set t.open_files i j u (omega (arith, v.room))),
      )

  open_known :
      (i : ℕ)
      → 0 < i
      → i < table_size
      → stands_for t u i ≡ true
      → ((j : ℕ) → j < i → stands_for t u j ≡ false)
      → search_loop table_size 0 t u ≡ ok i
      → (r : ℤ) × (t' : OpenFilesTable) × (open_file t u ≡ ok (r, t')) × Opened t u r t'
  unfolding open_file
  open_known i p lt hit before e =
      (pos i, t, rw (e, ne_zero i p), reused i p lt hit before refl refl)

  -- `Open` on a well-formed table: it gives the handle that the Unix handle has, or takes the least
  -- free one, or reports -1 when all are in use. The other handles keep what they stand for. Handle 0
  -- counts as "not found": a Unix handle that 0 stands for is given a second handle.
  pub open_file-Opened :
      (r : ℤ) × (t' : OpenFilesTable) × (open_file t u ≡ ok (r, t')) × Opened t u r t'
  open_file-Opened = found (search_loop_lem table_size 0 t u v refl (λ j lt. absurd (omega arith)))
    where
      found :
          (r : ℕ) × (search_loop table_size 0 t u ≡ ok r) × Searched t u r
          → (r : ℤ) × (t' : OpenFilesTable) × (open_file t u ≡ ok (r, t')) × Opened t u r t'
      found (r, e, nothing is none_found) =
          open_new (inr none_found) (e ∙ ap ok is) (find_lem t.open_files_map v.valid)
      found (zero, e, match lt hit before) =
          open_new (inl hit) e (find_lem t.open_files_map v.valid)
      found (suc i, e, match lt hit before) = open_known (suc i) (omega arith) lt hit before e
