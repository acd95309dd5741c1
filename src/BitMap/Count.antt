-- ===== src/BitMap/Count.antt =====
-- `NumClear` counts the clear bits, and `Find` takes one of them.
use nach_osx.Prelude.{
  ◌==◌, if◌then◌else◌, Bool-cases, ok, ℕ, zero, suc, ◌+◌, ◌≤◌, ◌<◌, ◌≡◌, refl, ap, ◌∙◌, inl, inr,
  Bool, true, false, arith,
}
use nach_osx.BitMap.{BitMap, num_clear_loop, num_clear}
use nach_osx.BitMap.Laws.{is_marked, IsValid, Updates, test_lem}

-- How many of the `n` places from `i` on are clear in the set `f`.
pub clear_in : ℕ → ℕ → (ℕ → Bool) → ℕ
clear_in zero i f = 0
clear_in (suc n) i f = (if f i then 0 else 1) + clear_in n (i + 1) f

-- The clear bits of the map.
pub free_bits : BitMap → ℕ
free_bits m = clear_in m.num_bits 0 (is_marked m)

num_clear_loop_lem :
    (n i count : ℕ) (m : BitMap)
    → IsValid m
    → i + n ≤ m.num_bits
    → num_clear_loop n i count m ≡ ok (count + clear_in n i (is_marked m))
unfolding num_clear_loop clear_in
num_clear_loop_lem zero i count m v h = ap ok (omega arith)
num_clear_loop_lem (suc n) i count m v h = rw (test_lem m i v (omega arith)) (
    num_clear_loop_lem n (i + 1) (if is_marked m i then count else count + 1) m v (omega arith)
    ∙ ap ok (ground arith))

-- `NumClear` of a valid map is the number of its clear bits.
pub num_clear_lem : (m : BitMap) → IsValid m → num_clear m ≡ ok (free_bits m)
unfolding num_clear free_bits
num_clear_lem m v = num_clear_loop_lem m.num_bits 0 0 m v (omega arith) ∙ ap ok (omega arith)

clear_in-congr :
    (n i : ℕ) (f g : ℕ → Bool)
    → ((j : ℕ) → i ≤ j → j < i + n → f j ≡ g j)
    → clear_in n i f ≡ clear_in n i g
unfolding clear_in
clear_in-congr zero i f g h = refl
clear_in-congr (suc n) i f g h = rw (
  h i (omega arith) (omega arith),
  clear_in-congr n (i + 1) f g (λ j p q. h j (omega arith) (omega arith)),
)

clear_in-flip :
    (n i k : ℕ) (f g : ℕ → Bool)
    → i ≤ k
    → k < i + n
    → f k ≡ false
    → ((j : ℕ) → g j ≡ (if k == j then true else f j))
    → clear_in n i f ≡ suc (clear_in n i g)
unfolding clear_in
clear_in-flip zero i k f g p q e h = absurd (omega arith)
clear_in-flip (suc n) i k f g p q e h = elim (Bool-cases (k == i)) [
  | inl here ↦ ground (arith, h i, clear_in-congr n (i + 1) f g (λ j a b. ground (arith, h j)))
  | inr later ↦ ground (arith, h i, clear_in-flip n (i + 1) k f g (ground arith) (omega arith) e h)
]

clear_in-full :
    (n i : ℕ) (f : ℕ → Bool) → ((j : ℕ) → i ≤ j → j < i + n → f j ≡ true) → clear_in n i f ≡ 0
unfolding clear_in
clear_in-full zero i f h = refl
clear_in-full (suc n) i f h =
    rw (h i (omega arith) (omega arith))
      (omega (arith, clear_in-full n (i + 1) f (λ j p q. h j (omega arith) (omega arith))))

-- Marking a clear bit takes one from the count.
pub free_bits-mark :
    {m m' : BitMap} (i : ℕ)
    → i < m.num_bits
    → is_marked m i ≡ false
    → Updates m i true m'
    → free_bits m ≡ suc (free_bits m')
unfolding free_bits
free_bits-mark {m} {m'} i h e u =
    simp u.same_size (
      clear_in-flip m.num_bits 0 i (is_marked m) (is_marked m') (omega arith) (omega arith) e
        u.bits)

-- A full map has no clear bit.
pub free_bits-full :
    (m : BitMap) → ((j : ℕ) → j < m.num_bits → is_marked m j ≡ true) → free_bits m ≡ 0
unfolding free_bits
free_bits-full m h = clear_in-full m.num_bits 0 (is_marked m) (λ j p q. h j (omega arith))

-- Clearing a marked bit adds one to the count.
pub free_bits-clear :
    {m m' : BitMap} (i : ℕ)
    → i < m.num_bits
    → is_marked m i ≡ true
    → Updates m i false m'
    → free_bits m' ≡ suc (free_bits m)
unfolding free_bits
free_bits-clear {m} {m'} i h e u = simp u.same_size (
    clear_in-flip m.num_bits 0 i (is_marked m') (is_marked m) (omega arith) (omega arith)
      (ground (arith, u.bits i)) (λ j. ground (arith, u.bits j)))

clear_in-empty :
    (n i : ℕ) (f : ℕ → Bool) → ((j : ℕ) → i ≤ j → j < i + n → f j ≡ false) → clear_in n i f ≡ n
unfolding clear_in
clear_in-empty zero i f h = refl
clear_in-empty (suc n) i f h =
    rw (h i (omega arith) (omega arith))
      (omega (arith, clear_in-empty n (i + 1) f (λ j p q. h j (omega arith) (omega arith))))

-- In an empty map every bit is clear.
pub free_bits-empty :
    (m : BitMap) → ((j : ℕ) → j < m.num_bits → is_marked m j ≡ false) → free_bits m ≡ m.num_bits
unfolding free_bits
free_bits-empty m h = clear_in-empty m.num_bits 0 (is_marked m) (λ j p q. h j (omega arith))
