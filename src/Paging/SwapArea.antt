-- ===== src/Paging/SwapArea.antt =====
-- The swap area: a page that was written to it is read back.
use nach_osx.Prelude.{
  leb, ◌==◌, if◌then◌else◌, lt→ltb, Bool-cases, length, get_or, set, take, drop, overlay,
  length-overlay, take-drop-overlay, length-take, length-drop, length-set, get_or-set_self,
  get_or-set_ne, ℤ, pos, negsuc, minus_one, int_eq, ok, ◌>>=◌, ok-injective, ℕ, zero, suc, ◌+◌, ◌*◌,
  ◌≤◌, ◌<◌, ◌≡◌, refl, sym, ap, ◌∙◌, subst, ◌⊎◌, inl, inr, Bool, true, false, none, some, List,
  arith,
}
use nach_osx.BitMap.{BitMap, find}
use nach_osx.BitMap.Laws.{IsValid, is_marked, clear_lem}
use nach_osx.BitMap.Search.{Found, full, first, find_lem}
use nach_osx.Translate.{page_size}
use nach_osx.Paging.{
  MemorySwap, swap_pages_quantity, find_slot, is_some, is_loaded_in_swap, read_frame, write_frame,
  read_slot, read_swap_memory, write_slot, write_swap_memory,
}

-- The slots and the map have their sizes.
pub record IsSwap (s : MemorySwap) : Type 0 where
  pub bits : s.swap_bit_map.num_bits ≡ swap_pages_quantity
  pub valid : IsValid s.swap_bit_map
  pub slots : length s.virtual_pages ≡ swap_pages_quantity

-- Slot `i` is the first, from `from` on, that holds `page`.
abbrev pub FirstSlot : List ℤ → ℤ → ℕ → ℕ → Type 0
FirstSlot pages page from i =
    (int_eq (get_or pages i minus_one) page ≡ true)
    × (from ≤ i)
    × ((j : ℕ) → from ≤ j → j < i → int_eq (get_or pages j minus_one) page ≡ false)

find_slot_first :
    (n i : ℕ) (pages : List ℤ) (page : ℤ) (k : ℕ)
    → FirstSlot pages page i k
    → k < n + i
    → n + i ≤ length pages
    → find_slot n i pages page ≡ ok (some k)
unfolding find_slot
find_slot_first zero i pages page k (here, from, _) lt room = absurd (omega arith)
find_slot_first (suc n) i pages page k (here, from, before) lt room = elim (Bool-cases (i == k)) [
  | inl same ↦ ground (arith, here)
  | inr other ↦
      rw (lt→ltb i (length pages) (omega arith), before i (omega arith) (ground arith))
        (find_slot_first n (i + 1) pages page k
          (here, ground arith, λ j p q. before j (omega arith) q) (omega arith) (omega arith))
]

pub find_slot-none :
    (n i : ℕ) (pages : List ℤ) (page : ℤ)
    → ((j : ℕ) → i ≤ j → j < n + i → int_eq (get_or pages j minus_one) page ≡ false)
    → n + i ≤ length pages
    → find_slot n i pages page ≡ ok none
unfolding find_slot
find_slot-none zero i pages page absent room = refl
find_slot-none (suc n) i pages page absent room =
    rw (lt→ltb i (length pages) (omega arith), absent i (omega arith) (omega arith))
      (find_slot-none n (i + 1) pages page (λ j p q. absent j (omega arith) (omega arith))
        (omega arith))

-- A page that some slot holds is found.
find_slot-some :
    (n i : ℕ) (pages : List ℤ) (page : ℤ) (k : ℕ)
    → int_eq (get_or pages k minus_one) page ≡ true
    → i ≤ k
    → k < n + i
    → n + i ≤ length pages
    → (j : ℕ) × (find_slot n i pages page ≡ ok (some j))
unfolding find_slot
find_slot-some zero i pages page k here from lt room = absurd (omega arith)
find_slot-some (suc n) i pages page k here from lt room =
    elim (Bool-cases (int_eq (get_or pages i minus_one) page)) [
      | inl found ↦ (i, rw (lt→ltb i (length pages) (omega arith), found) refl)
      | inr other ↦
          let (j, e) =
            find_slot-some n (i + 1) pages page k here (ground (arith, other)) (omega arith)
              (omega arith) in
          (j, rw (lt→ltb i (length pages) (omega arith), other) e)
    ]

-- The page is in no slot.
abbrev pub NotSwapped : MemorySwap → ℤ → Type 0
NotSwapped s page =
    (j : ℕ) → j < swap_pages_quantity → int_eq (get_or s.virtual_pages j minus_one) page ≡ false

-- `s'` is `s` with the bytes of a frame in slot `i`, which was free.
pub record Written (s : MemorySwap) (page : ℤ) (bytes : List ℕ) (i : ℕ) (s' : MemorySwap)
    : Type 0 where
  pub swap : IsSwap s'
  pub in_range : i < swap_pages_quantity
  pub was_free : is_marked s.swap_bit_map i ≡ false
  pub bits :
      (j : ℕ) → is_marked s'.swap_bit_map j ≡ (if i == j then true else is_marked s.swap_bit_map j)
  pub pages : s'.virtual_pages ≡ set s.virtual_pages i page
  pub segment : s'.swap_segment i ≡ bytes

module _ (s : MemorySwap) (swap : IsSwap s) (memory : List ℕ) (p : ℕ)
    (fits : p * page_size + page_size ≤ length memory) where
  read_frame_lem : read_frame memory (pos p) ≡ ok (take page_size (drop (p * page_size) memory))
  unfolding read_frame
  read_frame_lem = ground (arith, fits)

  abbrev frame : List ℕ
  frame = take page_size (drop (p * page_size) memory)

  abbrev IsFull : Type 0
  IsFull = (j : ℕ) → j < swap_pages_quantity → is_marked s.swap_bit_map j ≡ true

  -- writeSwapMemory answers false on a full area, which it leaves as it was; else it puts the frame and
  -- the page's number in a free slot.
  pub write_swap_memory-Written :
      (page : ℤ)
      → ((write_swap_memory (pos p) page memory s ≡ ok (false, s)) × IsFull)
        ⊎ ((i : ℕ) × (s' : MemorySwap) × (write_swap_memory (pos p) page memory s ≡ ok (true, s'))
            × Written s page frame i s')
  unfolding write_swap_memory write_slot
  write_swap_memory-Written page =
      let (r, m, e, f) = find_lem s.swap_bit_map swap.valid in by r m e f
    where
      Goal : Type 0
      Goal =
          ((write_swap_memory (pos p) page memory s ≡ ok (false, s)) × IsFull)
          ⊎ ((i : ℕ) × (s' : MemorySwap) × (write_swap_memory (pos p) page memory s ≡ ok (true, s'))
              × Written s page frame i s')

      by : (r : ℤ) (m : BitMap) → find s.swap_bit_map ≡ ok (r, m) → Found s.swap_bit_map r m → Goal
      by r m e (full none_free same all) =
          inl (rw (e, none_free, same) refl, λ j h. all j (omega (arith, swap.bits)))
      by r m e (first i found lt free below u) =
          let in_range : i < swap_pages_quantity = omega (arith, swap.bits) in
          inr (
            i,
            record {
              swap_bit_map = m;
              virtual_pages = set s.virtual_pages i page;
              swap_segment = λ j. if i == j then frame else s.swap_segment j;
            },
            rw
                (
                  e,
                  found,
                  lt→ltb i (length s.virtual_pages) (omega (arith, swap.slots)),
                  read_frame_lem,
                )
                refl,
            record {
              swap = record {
                bits = u.same_size ∙ swap.bits;
                valid = u.valid;
                slots = length-set s.virtual_pages i page ∙ swap.slots;
              };
              in_range = in_range;
              was_free = free;
              bits = u.bits;
              pages = refl;
              segment = ground arith;
            },
          )

get_or-set-if :
    (xs : List ℤ) (i j : ℕ) (v : ℤ)
    → i < length xs
    → get_or (set xs i v) j minus_one ≡ (if i == j then v else get_or xs j minus_one)
get_or-set-if xs i j v lt = elim (Bool-cases (i == j)) [
  | inl same ↦
      let e : i ≡ j = ground arith in
      rw same
        (subst (λ k. get_or (set xs i v) k minus_one ≡ v) e (get_or-set_self xs i v minus_one lt))
  | inr other ↦ rw other (get_or-set_ne xs i j v minus_one (λ e. ground arith))
]

int_eq_refl : (a : ℤ) → int_eq a a ≡ true
int_eq_refl (pos a) = ground arith
int_eq_refl (negsuc a) = ground arith

module _ (s : MemorySwap) (swap : IsSwap s) (page : ℤ) (absent : NotSwapped s page) (bytes : List ℕ)
    (i : ℕ) (s' : MemorySwap) (w : Written s page bytes i s') where
  found_there : find_slot swap_pages_quantity 0 s'.virtual_pages page ≡ ok (some i)
  found_there =
      find_slot_first swap_pages_quantity 0 s'.virtual_pages page i
        (
          rw
              (
                w.pages,
                get_or-set-if s.virtual_pages i i page (omega (arith, swap.slots, w.in_range)),
              )
              (ground (arith, int_eq_refl page)),
          omega arith,
          λ j p lt.
              rw
                (
                  w.pages,
                  get_or-set-if s.virtual_pages i j page (omega (arith, swap.slots, w.in_range)),
                )
                (ground (arith, absent j (omega (arith, w.in_range)))),
        )
        (omega (arith, w.in_range)) (omega (arith, w.swap.slots))

  read_back :
      (memory : List ℕ) (q : ℕ)
      → q * page_size + page_size ≤ length memory
      → length bytes ≡ page_size
      → (memory' : List ℕ) × (s'' : MemorySwap) × (read_swap_memory (pos q) page memory s'
          ≡ ok (true, (memory', s'')))
        × (read_frame memory' (pos q) ≡ ok bytes)
        × IsSwap s''
        × ((j : ℕ) → is_marked s''.swap_bit_map j ≡ is_marked s.swap_bit_map j)
        × (is_loaded_in_swap (pos 0) s'' ≡ ok true)
  unfolding read_swap_memory read_slot write_frame is_loaded_in_swap
  read_back memory q fits size =
      let (m, e, u) =
        clear_lem s'.swap_bit_map i w.swap.valid (omega (arith, w.in_range, w.swap.bits)) in
      let pages = set s'.virtual_pages i (pos 0) in
      let memory' = overlay memory (q * page_size) bytes in
      let s'' : MemorySwap = record s' { virtual_pages = pages; swap_bit_map = m } in
      (
        memory',
        s'',
        rw
            (
              found_there,
              lt→ltb i (length s'.virtual_pages) (omega (arith, w.swap.slots, w.in_range)),
              e,
              w.segment,
              fits_lem,
            )
            refl,
        read_frame_lem s swap memory' q
              (ground (arith, fits, length-overlay memory (q * page_size) bytes))
            ∙ ap ok (take-drop-overlay memory (q * page_size) page_size bytes size fits),
        record {
          bits = u.same_size ∙ w.swap.bits;
          valid = u.valid;
          slots = length-set s'.virtual_pages i (pos 0) ∙ w.swap.slots;
        },
        λ j. ground (arith, u.bits j, w.bits j, w.was_free),
        loaded s'.virtual_pages w.swap.slots,
      )
    where
      fits_lem : leb (q * page_size + length bytes) (length memory) ≡ true
      fits_lem = ground (arith, fits, size)

      loaded :
          (xs : List ℤ)
          → length xs ≡ swap_pages_quantity
          → (find_slot swap_pages_quantity 0 (set xs i (pos 0)) (pos 0) >>= λ slot.
              ok (is_some slot))
            ≡ ok true
      loaded xs size =
          let (j, e) =
            find_slot-some swap_pages_quantity 0 (set xs i (pos 0)) (pos 0) i
              (rw (get_or-set-if xs i i (pos 0) (omega (arith, size, w.in_range))) (ground arith))
              (omega arith) (omega (arith, w.in_range))
              (omega (arith, length-set xs i (pos 0), size)) in
          rw e refl

-- A page that is in no slot of a well-formed swap area, and that writeSwapMemory has written there from a
-- frame of the memory, is read back by readSwapMemory into any frame of the memory: the frame then has its
-- bytes, and the slot is free again. Its number is set to 0, though, so that afterwards page 0 counts as
-- loaded in swap.
pub read_swap_memory-write_swap_memory :
    (s : MemorySwap) (memory memory₂ : List ℕ) (p q : ℕ) (page : ℤ) (s' : MemorySwap)
    → IsSwap s
    → p * page_size + page_size ≤ length memory
    → q * page_size + page_size ≤ length memory₂
    → NotSwapped s page
    → write_swap_memory (pos p) page memory s ≡ ok (true, s')
    → (memory' : List ℕ) × (s'' : MemorySwap) × (read_swap_memory (pos q) page memory₂ s'
        ≡ ok (true, (memory', s'')))
      × (read_frame memory' (pos q) ≡ read_frame memory (pos p))
      × IsSwap s''
      × ((j : ℕ) → is_marked s''.swap_bit_map j ≡ is_marked s.swap_bit_map j)
      × (is_loaded_in_swap (pos 0) s'' ≡ ok true)
read_swap_memory-write_swap_memory s memory memory₂ p q page s' swap fits fits₂ absent written =
    by (write_swap_memory-Written s swap memory p fits page)
  where
    bytes : List ℕ
    bytes = take page_size (drop (p * page_size) memory)

    Goal : Type 0
    Goal =
        (memory' : List ℕ) × (s'' : MemorySwap) × (read_swap_memory (pos q) page memory₂ s'
          ≡ ok (true, (memory', s'')))
        × (read_frame memory' (pos q) ≡ read_frame memory (pos p))
        × IsSwap s''
        × ((j : ℕ) → is_marked s''.swap_bit_map j ≡ is_marked s.swap_bit_map j)
        × (is_loaded_in_swap (pos 0) s'' ≡ ok true)

    by :
        ((write_swap_memory (pos p) page memory s ≡ ok (false, s))
            × ((j : ℕ) → j < swap_pages_quantity → is_marked s.swap_bit_map j ≡ true))
          ⊎ ((i : ℕ) × (s₁ : MemorySwap) × (write_swap_memory (pos p) page memory s ≡ ok (true, s₁))
              × Written s page bytes i s₁)
        → Goal
    by (inl (refused, _)) = cc
    by (inr (i, s₁, e, w)) =
        let same : s₁ ≡ s' = ap (λ (r : Bool × MemorySwap). r.1) (ok-injective (sym e ∙ written)) in
        let w' : Written s page bytes i s' = subst (Written s page bytes i) same w in
        let (memory', s'', ends, back, swap', bits, zero_loaded) =
          read_back s swap page absent bytes i s' w' memory₂ q fits₂ (
            ground (
              arith,
              length-take page_size (drop (p * page_size) memory),
              length-drop (p * page_size) memory,
            )) in
        (
          memory',
          s'',
          ends,
          back ∙ sym (read_frame_lem s swap memory p fits),
          swap',
          bits,
          zero_loaded,
        )
