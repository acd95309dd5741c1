-- ===== src/BitMap/Search.antt =====
-- The constructor, `Find` and what they promise: the loops over all the bits of a BitMap.
use nach_osx.Prelude.{
  ◌==◌, Bool-cases, length, ℤ, pos, minus_one, ok, ℕ, zero, suc, ◌+◌, ◌≤◌, ◌<◌, ◌≡◌, refl, ◌∙◌, inl,
  inr, true, false, List, arith,
}
use nach_osx.BitMap.{BitMap, bits_in_word, div_round_up, clear_loop, create, find_loop, find}
use nach_osx.BitMap.Laws.{is_marked, IsValid, Updates, test_lem, mark_lem, clear_lem}

-- Every bit from `i` to `i + n` has been cleared, and the others are as before.
record Cleared (m : BitMap) (i n : ℕ) (m' : BitMap) : Type 0 where
  valid : IsValid m'
  same_size : m'.num_bits ≡ m.num_bits
  inside : (j : ℕ) → i ≤ j → j < i + n → is_marked m' j ≡ false
  below : (j : ℕ) → j < i → is_marked m' j ≡ is_marked m j

clear_loop_lem :
    (n i : ℕ) (m : BitMap)
    → IsValid m
    → i + n ≤ m.num_bits
    → (m' : BitMap) × (clear_loop n i m ≡ ok m') × Cleared m i n m'
unfolding clear_loop
clear_loop_lem zero i m v h = (
  m,
  refl,
  record {
    valid = v;
    same_size = refl;
    inside = λ j p q. absurd (omega arith);
    below = λ j p. refl;
  },
)
clear_loop_lem (suc n) i m v h =
    let (m₁, e₁, u) = clear_lem m i v (omega arith) in
    let (m₂, e₂, c) = clear_loop_lem n (i + 1) m₁ u.valid (omega (arith, u.same_size)) in
    (
      m₂,
      rw (e₁, e₂),
      record {
        valid = c.valid;
        same_size = c.same_size ∙ u.same_size;
        inside = λ j p q. elim (Bool-cases (i == j)) [
          | inl same ↦ ground (arith, c.below j, u.bits j)
          | inr other ↦ c.inside j (ground arith) (omega arith)
        ];
        below = λ j p. ground (arith, c.below j, u.bits j);
      },
    )

-- The constructor, whatever the memory for the words holds: a valid map of `nitems` clear bits.
pub create_lem :
    (memory : List ℕ) (nitems : ℕ)
    → length memory ≡ div_round_up nitems bits_in_word
    → (m : BitMap) × (create memory nitems ≡ ok m)
      × IsValid m
      × (m.num_bits ≡ nitems)
      × ((j : ℕ) → j < nitems → is_marked m j ≡ false)
unfolding create
create_lem memory nitems h =
    let start : BitMap = record {
      num_bits = nitems;
      num_words = div_round_up nitems bits_in_word;
      map = memory;
    } in
    let (m, e, c) =
      clear_loop_lem nitems 0 start (record { words = refl; stored = h }) (omega arith) in
    (m, e, c.valid, c.same_size, λ j p. c.inside j (omega arith) (omega arith))

-- How `Find` ends: the map is full and unchanged, or the first clear bit is marked.
pub data Found (m : BitMap) (r : ℤ) (m' : BitMap) : Type 0 where
  full : r ≡ minus_one → m' ≡ m → ((j : ℕ) → j < m.num_bits → is_marked m j ≡ true) → Found m r m'
  first :
      (i : ℕ)
      → r ≡ pos i
      → i < m.num_bits
      → is_marked m i ≡ false
      → ((j : ℕ) → j < i → is_marked m j ≡ true)
      → Updates m i true m'
      → Found m r m'

find_loop_lem :
    (n i : ℕ) (m : BitMap)
    → IsValid m
    → i + n ≡ m.num_bits
    → ((j : ℕ) → j < i → is_marked m j ≡ true)
    → (r : ℤ) × (m' : BitMap) × (find_loop n i m ≡ ok (r, m')) × Found m r m'
unfolding find_loop
find_loop_lem zero i m v h below =
    (minus_one, m, refl, full refl refl (λ j p. below j (omega arith)))
find_loop_lem (suc n) i m v h below = elim (Bool-cases (is_marked m i)) [
  | inl used ↦
      let (r, m', e, f) = find_loop_lem n (i + 1) m v (omega arith) (λ j p.
        elim (Bool-cases (i == j)) [
          | inl same ↦ ground arith
          | inr other ↦ below j (ground arith)
        ]) in
      (r, m', rw (test_lem m i v (omega arith), used) e, f)
  | inr free ↦
      let (m', e, u) = mark_lem m i v (omega arith) in
      (
        pos i,
        m',
        rw (test_lem m i v (omega arith), free, e),
        first i refl (omega arith) free below u,
      )
]

-- `Find` on a valid map marks the first clear bit and returns its number; only when every bit is
-- marked it returns -1, and leaves the map as it was.
pub find_lem :
    (m : BitMap) → IsValid m → (r : ℤ) × (m' : BitMap) × (find m ≡ ok (r, m')) × Found m r m'
unfolding find
find_lem m v = find_loop_lem m.num_bits 0 m v (omega arith) (λ j p. absurd (omega arith))
