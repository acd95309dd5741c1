-- ===== src/FileHeader/Allocation.antt =====
-- `FileHeader::Allocate` on each of its ways out.
use nach_osx.Prelude.{
  ltb, ltb→lt, lt→ltb, Bool-cases, length, get_or, set, length-set, get_or-set_self, get_or-set_ne,
  ℤ, pos, minus_one, ok, overrun, ok-injective, ℕ, zero, suc, ◌+◌, ◌≤◌, ◌<◌, ◌≡◌, refl, sym, ◌∙◌,
  subst, inl, inr, Bool, true, false, List, [], ◌∷◌, arith,
}
use nach_osx.BitMap.{BitMap, div_round_up, find}
use nach_osx.BitMap.Laws.{is_marked, IsValid, Updates}
use nach_osx.BitMap.Search.{Found, full, first, find_lem}
use nach_osx.BitMap.Count.{free_bits, free_bits-mark, free_bits-full, num_clear_lem}
use nach_osx.FileHeader.{sector_size, num_direct, FileHeader, put_sector, allocate_loop, allocate}
use nach_osx.FileHeader.Sectors.{Allocated, Allocated-nil, Allocated-cons, Holds}

-- A map with a clear bit gives one away.
pub find_free :
    (m : BitMap)
    → IsValid m
    → 0 < free_bits m
    → (s : ℕ) × (m' : BitMap) × (find m ≡ ok (pos s, m'))
      × (s < m.num_bits)
      × (is_marked m s ≡ false)
      × Updates m s true m'
find_free m v some_free = let (r, m', e, f) = find_lem m v in taken r m' e f
  where
    taken :
        (r : ℤ) (m' : BitMap)
        → find m ≡ ok (r, m')
        → Found m r m'
        → (s : ℕ) × (m' : BitMap) × (find m ≡ ok (pos s, m'))
          × (s < m.num_bits)
          × (is_marked m s ≡ false)
          × Updates m s true m'
    taken r m' e (full _ _ marked) = absurd (omega (arith, free_bits-full m marked))
    taken r m' e (first s is lt free _ u) = (s, m', rw (← is) e, lt, free, u)

put_sector_lem :
    (h : FileHeader) (i : ℕ) (s : ℤ)
    → i < length h.data_sectors
    → put_sector h i s ≡ ok (record h { data_sectors = set h.data_sectors i s })
unfolding put_sector
put_sector_lem h i s lt = rw (lt→ltb _ _ lt)

-- What the loop leaves behind when it starts at place `i` and runs `n` rounds.
pub record Filled (h : FileHeader) (m : BitMap) (i n : ℕ) (h' : FileHeader) (m' : BitMap)
    : Type 0 where
  pub taken : List ℕ
  pub count : length taken ≡ n
  pub allocated : Allocated m taken m'
  pub held : Holds h'.data_sectors i taken
  pub below :
      (j : ℕ) → j < i → get_or h'.data_sectors j minus_one ≡ get_or h.data_sectors j minus_one
  pub room : length h'.data_sectors ≡ length h.data_sectors
  pub bytes : h'.num_bytes ≡ h.num_bytes
  pub sectors : h'.num_sectors ≡ h.num_sectors

allocate_loop_lem :
    (n i : ℕ) (h : FileHeader) (m : BitMap)
    → IsValid m
    → n ≤ free_bits m
    → i + n ≤ length h.data_sectors
    → (h' : FileHeader) × (m' : BitMap) × (allocate_loop n i h m ≡ ok (h', m'))
      × Filled h m i n h' m'
unfolding allocate_loop
allocate_loop_lem zero i h m v enough fits = (
  h,
  m,
  refl,
  record {
    taken = [];
    count = refl;
    allocated = Allocated-nil m v;
    held = tt;
    below = λ j lt. refl;
    room = refl;
    bytes = refl;
    sectors = refl;
  },
)
allocate_loop_lem (suc n) i h m v enough fits =
    let (s, m₁, e, lt, free, u) = find_free m v (omega arith) in
    let h₁ : FileHeader = record h { data_sectors = set h.data_sectors i (pos s) } in
    let (h', m', e', f) =
      allocate_loop_lem n (i + 1) h₁ m₁ u.valid (omega (arith, free_bits-mark s lt free u))
        (omega (arith, length-set h.data_sectors i (pos s))) in
    (
      h',
      m',
      rw (e, put_sector_lem h i (pos s) (omega arith)) e',
      record {
        taken = s ∷ f.taken;
        count = omega (arith, f.count);
        allocated = Allocated-cons s lt free u f.allocated;
        held = (
          f.below i (omega arith)
              ∙ get_or-set_self h.data_sectors i (pos s) minus_one (omega arith),
          f.held,
        );
        below = λ j below.
            f.below j (omega arith)
            ∙ get_or-set_ne h.data_sectors i j (pos s) minus_one (omega arith);
        room = f.room ∙ length-set h.data_sectors i (pos s);
        bytes = f.bytes;
        sectors = f.sectors;
      },
    )

abbrev pub sectors_for : ℕ → ℕ
sectors_for size = div_round_up size sector_size

abbrev pub sized : FileHeader → ℕ → FileHeader
sized h size = record h { num_bytes = size; num_sectors = sectors_for size }

module _ (h : FileHeader) (m : BitMap) (size : ℕ) (v : IsValid m) where
  -- A request that fits the table and the free space is granted: the header names distinct sectors
  -- that were free, they are marked, no other bit changes, and the count of free sectors falls by
  -- their number.
  pub allocate-Filled :
      length h.data_sectors ≡ num_direct
      → (sectors_for size) ≤ num_direct
      → (sectors_for size) ≤ free_bits m
      → (h' : FileHeader) × (m' : BitMap) × (allocate h m size ≡ ok (true, h', m'))
        × Filled (sized h size) m 0 (sectors_for size) h' m'
  unfolding allocate
  allocate-Filled room fits enough =
      let (h', m', e, f) =
        allocate_loop_lem (sectors_for size) 0 (sized h size) m v enough (omega arith) in
      (h', m', rw (num_clear_lem m v) (ground (arith, e)), f)

  -- A request for more sectors than are free is refused, and the map is unchanged.
  pub allocate_refused :
      free_bits m < (sectors_for size) → allocate h m size ≡ ok (false, (sized h size), m)
  unfolding allocate
  allocate_refused few = rw (num_clear_lem m v, lt→ltb _ _ few)

allocate_loop_overruns :
    (n i : ℕ) (h : FileHeader) (m : BitMap)
    → IsValid m
    → n ≤ free_bits m
    → i ≤ length h.data_sectors
    → length h.data_sectors < i + n
    → allocate_loop n i h m ≡ overrun
unfolding allocate_loop put_sector
allocate_loop_overruns zero i h m v enough inside past = absurd (omega arith)
allocate_loop_overruns (suc n) i h m v enough inside past =
    let (s, m₁, e, lt, free, u) = find_free m v (omega arith) in
    rw e (elim (Bool-cases (ltb i (length h.data_sectors))) [
      | inl room ↦ rw room (
          allocate_loop_overruns n (i + 1)
            (record h { data_sectors = set h.data_sectors i (pos s) }) m₁ u.valid
            (omega (arith, free_bits-mark s lt free u))
            (ground (arith, length-set h.data_sectors i (pos s)))
            (omega (arith, length-set h.data_sectors i (pos s))))
      | inr none_left ↦ rw none_left
    ])

-- Nothing compares the request with MaxFileSize: whenever the disk has the space, a file of more
-- than NumDirect sectors makes the loop write past the end of `dataSectors`.
pub allocate_overruns :
    (h : FileHeader) (m : BitMap) (size : ℕ)
    → IsValid m
    → length h.data_sectors ≡ num_direct
    → num_direct < sectors_for size
    → sectors_for size ≤ free_bits m
    → allocate h m size ≡ overrun
unfolding allocate
allocate_overruns h m size v room large enough = rw (num_clear_lem m v) (
    ground (
      arith,
      allocate_loop_overruns (sectors_for size) 0 (sized h size) m v enough (omega arith)
          (omega arith),
    ))

-- What a granted request means: it did fit, and the header was filled in.
pub allocate_granted :
    (h h' : FileHeader) (m m' : BitMap) (size : ℕ)
    → IsValid m
    → length h.data_sectors ≡ num_direct
    → allocate h m size ≡ ok (true, h', m')
    → (sectors_for size ≤ num_direct) × Filled (sized h size) m 0 (sectors_for size) h' m'
allocate_granted h h' m m' size v room e =
    elim (Bool-cases (ltb (free_bits m) (sectors_for size))) [
      | inl few ↦ cc (allocate_refused h m size v (ltb→lt _ _ few))
      | inr enough ↦ elim (Bool-cases (ltb num_direct (sectors_for size))) [
        | inl large ↦ cc (allocate_overruns h m size v room (ltb→lt _ _ large) (ground arith))
        | inr fits ↦
            let (h₁, m₁, e₁, f) = allocate-Filled h m size v room (ground arith) (ground arith) in
            let same = ok-injective (sym e₁ ∙ e) in
            (
              ground arith,
              subst
                  (λ (p : Bool × FileHeader × BitMap).
                    Filled (sized h size) m 0 (sectors_for size) p.1 p.2)
                  same f,
            )
      ]
    ]
