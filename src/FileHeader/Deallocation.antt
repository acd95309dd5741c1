-- ===== src/FileHeader/Deallocation.antt =====
-- `FileHeader::Deallocate`, and that it undoes `Allocate`.
use nach_osx.Prelude.{
  lt→ltb, length, get_or, ℤ, pos, minus_one, ok, ℕ, zero, suc, ◌+◌, ◌/◌, ◌≤◌, ◌<◌, ◌≡◌, refl, sym,
  ap, ◌∙◌, subst, true, false, not, ◌&&◌, List, [], ◌∷◌, arith,
}
use native.Mathlib.Nat.{add-zero, zero-add}
use nach_osx.BitMap.{BitMap, div_round_up}
use nach_osx.BitMap.Laws.{is_marked, IsValid, Updates, test_lem, clear_lem}
use nach_osx.BitMap.Count.{free_bits, free_bits-clear}
use nach_osx.FileHeader.{
  sector_size, num_direct, FileHeader, get_sector, deallocate_loop, allocate, deallocate,
  byte_to_sector,
}
use nach_osx.FileHeader.Sectors.{has, Distinct, Allocated, Holds}
use nach_osx.FileHeader.Allocation.{Filled, sectors_for, sized, allocate_granted}

-- The sectors `ss` are taken: in the range of the map, marked, and each named once.
pub record Owned (m : BitMap) (ss : List ℕ) : Type 0 where
  pub valid : IsValid m
  pub distinct : Distinct ss
  pub inside : (j : ℕ) → has j ss ≡ true → j < m.num_bits
  pub marked : (j : ℕ) → has j ss ≡ true → is_marked m j ≡ true

-- The sectors `ss` are given back, and the other bits are as before.
pub record Freed (m : BitMap) (ss : List ℕ) (m' : BitMap) : Type 0 where
  pub valid : IsValid m'
  pub same_size : m'.num_bits ≡ m.num_bits
  pub bits : (j : ℕ) → is_marked m' j ≡ (not (has j ss) && is_marked m j)
  pub counted : free_bits m' ≡ length ss + free_bits m

Owned-tail :
    {m m₁ : BitMap} (s : ℕ) {ss : List ℕ} → Owned m (s ∷ ss) → Updates m s false m₁ → Owned m₁ ss
Owned-tail s {ss} o u = record {
  valid = u.valid;
  distinct = o.distinct.1;
  inside = λ j h. ground (arith, o.inside j, u.same_size);
  marked = λ j h. ground (arith, o.marked j, u.bits j, o.distinct.0);
}

get_sector_lem :
    (h : FileHeader) (i : ℕ)
    → i < length h.data_sectors
    → get_sector h i ≡ ok (get_or h.data_sectors i minus_one)
unfolding get_sector
get_sector_lem h i lt = rw (lt→ltb _ _ lt)

deallocate_loop_lem :
    (ss : List ℕ) (i : ℕ) (h : FileHeader) (m : BitMap)
    → i + length ss ≤ length h.data_sectors
    → Holds h.data_sectors i ss
    → Owned m ss
    → (m' : BitMap) × (deallocate_loop (length ss) i h m ≡ ok m') × Freed m ss m'
unfolding deallocate_loop
deallocate_loop_lem [] i h m fits held o =
    (m, refl, record { valid = o.valid; same_size = refl; bits = λ j. refl; counted = omega arith })
deallocate_loop_lem (s ∷ ss) i h m fits held o =
    let here : has s (s ∷ ss) ≡ true = ground arith in
    let lt = o.inside s here in
    let (m₁, e, u) = clear_lem m s o.valid lt in
    let (m', e', f) = deallocate_loop_lem ss (i + 1) h m₁ (omega arith) held.1 (Owned-tail s o u) in
    (
      m',
      rw (get_sector_lem h i (omega arith), held.0, test_lem m s o.valid lt, o.marked s here, e) e',
      record {
        valid = f.valid;
        same_size = f.same_size ∙ u.same_size;
        bits = λ j. ground (arith, f.bits j, u.bits j);
        counted = omega (arith, f.counted, free_bits-clear s lt (o.marked s here) u);
      },
    )

-- `Deallocate` gives back the sectors that the table of the header names.
pub deallocate-Freed :
    (h : FileHeader) (m : BitMap) (ss : List ℕ)
    → length h.data_sectors ≡ num_direct
    → h.num_sectors ≤ num_direct
    → length ss ≡ h.num_sectors
    → Holds h.data_sectors 0 ss
    → Owned m ss
    → (m' : BitMap) × (deallocate h m ≡ ok m') × Freed m ss m'
unfolding deallocate
deallocate-Freed h m ss room fits count held o =
    let (m', e, d) = deallocate_loop_lem ss 0 h m (omega arith) held o in
    (m', ap (λ n. deallocate_loop n 0 h m) (sym count) ∙ e, d)

Owned-Allocated : {m m' : BitMap} {ss : List ℕ} → Allocated m ss m' → Owned m' ss
Owned-Allocated a = record {
  valid = a.valid;
  distinct = a.distinct;
  inside = λ j h. ground (arith, a.fresh j, a.same_size);
  marked = λ j h. ground (arith, a.bits j);
}

pub sector_inside : (offset size : ℕ) → offset < size → offset / sector_size < sectors_for size
unfolding div_round_up
sector_inside offset size h = ground arith

-- The entry at place `i + k` is one of the sectors listed.
Holds-at :
    (ss : List ℕ) (i k : ℕ) (ds : List ℤ)
    → k < length ss
    → Holds ds i ss
    → (s : ℕ) × (get_or ds (i + k) minus_one ≡ pos s) × (has s ss ≡ true)
Holds-at [] i k ds lt held = elim lt [ ]
Holds-at (s ∷ ss) i zero ds lt held = (s, rw add-zero held.0, ground arith)
Holds-at (s ∷ ss) i (suc k) ds lt held =
    let (t, at, listed) = Holds-at ss (i + 1) k ds (omega arith) held.1 in
    let next : i + suc k ≡ i + 1 + k = omega arith in (t, rw next at, ground arith)

-- Whatever `Allocate` has just filled in, `Deallocate` gives back: no ASSERT fails, and every bit
-- of the map is what it was before the file was made.
pub deallocate-Filled :
    (h h' : FileHeader) (m m' : BitMap)
    → length h'.data_sectors ≡ num_direct
    → h'.num_sectors ≤ num_direct
    → Filled h m 0 h'.num_sectors h' m'
    → (m'' : BitMap) × (deallocate h' m' ≡ ok m'')
      × IsValid m''
      × (m''.num_bits ≡ m.num_bits)
      × ((j : ℕ) → is_marked m'' j ≡ is_marked m j)
deallocate-Filled h h' m m' room fits f =
    let (m'', e, d) =
      deallocate-Freed h' m' f.taken room fits f.count f.held (Owned-Allocated f.allocated) in
    (
      m'',
      e,
      d.valid,
      d.same_size ∙ f.allocated.same_size,
      λ j. ground (arith, d.bits j, f.allocated.bits j, f.allocated.fresh j),
    )

module _ (h h' : FileHeader) (m m' : BitMap) (size : ℕ) (v : IsValid m)
    (room : length h.data_sectors ≡ num_direct)
    (granted : allocate h m size ≡ ok (true, h', m')) where
  -- Deallocating the file that was just allocated fails no ASSERT, and leaves every bit of the map
  -- as it was before.
  pub deallocate-allocate :
      (m'' : BitMap) × (deallocate h' m' ≡ ok m'')
      × IsValid m''
      × (m''.num_bits ≡ m.num_bits)
      × ((j : ℕ) → is_marked m'' j ≡ is_marked m j)
  deallocate-allocate =
      let (fits, f) = allocate_granted h h' m m' size v room granted in
      deallocate-Filled (sized h size) h' m m' (f.room ∙ room) (omega (arith, f.sectors))
        (subst (λ n. Filled (sized h size) m 0 n h' m') (sym f.sectors) f)

  -- Every byte of the file lies in a sector of the disk that was free before and is marked now.
  pub byte_to_sector-allocate :
      (offset : ℕ)
      → offset < size
      → (s : ℕ) × (byte_to_sector h' offset ≡ ok (pos s))
        × (s < m.num_bits)
        × (is_marked m s ≡ false)
        × (is_marked m' s ≡ true)
  unfolding byte_to_sector
  byte_to_sector-allocate offset lt =
      let (fits, f) = allocate_granted h h' m m' size v room granted in
      let i : ℕ = offset / sector_size in
      let inside : i < sectors_for size = sector_inside offset size lt in
      let (s, held, listed) =
        Holds-at f.taken 0 i h'.data_sectors (omega (arith, f.count)) f.held in
      (
        s,
        get_sector_lem h' i (omega (arith, f.room))
            ∙ ap ok (subst (λ j. get_or h'.data_sectors j minus_one ≡ pos s) (zero-add i) held),
        (f.allocated.fresh s listed).0,
        (f.allocated.fresh s listed).1,
        ground (arith, f.allocated.bits s),
      )
