-- ===== src/Bits.antt =====
-- The bits of a 32-bit word, and what `|`, `&` and `~` do to them. The word operations of the
-- source are the native ones; these laws are what the proofs use.
mod Step
pub use Step.{bit_or-halves, bit_and-halves, bit_xor-halves}
use Prim.Native.Nat.{bit_and, bit_or, bit_xor}
use nach_osx.Prelude.{
  ℕ, zero, suc, ◌+◌, ◌-◌, ◌*◌, ◌/◌, ◌%◌, ◌^◌, ◌≤◌, ◌<◌, ◌≡◌, refl, Bool, true, not, ◌&&◌, ◌||◌,
  arith, ◌==◌, same_below, same_below_lem,
}
use native.Mathlib.Nat.{pow-suc}

-- Bit `k` of `w`.
unfoldable pub bit : ℕ → ℕ → Bool
bit zero w = w % 2 == 1
bit (suc k) w = bit k (w / 2)

pub bit-bit_and : (k a b : ℕ) → bit k (bit_and a b) ≡ (bit k a && bit k b)
unfolding bit
bit-bit_and zero a b = ground (arith, (bit_and-halves a b).1)
bit-bit_and (suc k) a b = rw ((bit_and-halves a b).0) (bit-bit_and k (a / 2) (b / 2))

pub bit-bit_or : (k a b : ℕ) → bit k (bit_or a b) ≡ (bit k a || bit k b)
unfolding bit
bit-bit_or zero a b = ground (arith, (bit_or-halves a b).1)
bit-bit_or (suc k) a b = rw ((bit_or-halves a b).0) (bit-bit_or k (a / 2) (b / 2))

pub bit-bit_xor :
    (k a b : ℕ) → bit k (bit_xor a b) ≡ not ((bit k a && bit k b) || not (bit k a || bit k b))
unfolding bit
bit-bit_xor zero a b = ground (arith, (bit_xor-halves a b).1)
bit-bit_xor (suc k) a b = rw ((bit_xor-halves a b).0) (bit-bit_xor k (a / 2) (b / 2))

-- `1 << k`
abbrev pub shift_one : ℕ → ℕ
shift_one k = 2 ^ k

-- `~w`, on 32 bits
abbrev pub complement : ℕ → ℕ
complement w = 2 ^ 32 - 1 - w

-- Row `i / 32` has the mask of that position, column `i % 32` one bit of it.
shift_one_bits : ℕ → Bool
shift_one_bits i = bit (i % 32) (shift_one (i / 32))

complement_bits : ℕ → Bool
complement_bits i = bit (i % 32) (complement (shift_one (i / 32)))

shift_one_table : same_below shift_one_bits (λ i. i / 32 == i % 32) 1024 ≡ true
unfolding same_below bit shift_one_bits
shift_one_table = refl

complement_table : same_below complement_bits (λ i. not (i / 32 == i % 32)) 1024 ≡ true
unfolding same_below bit complement_bits
complement_table = refl

cell : (j k : ℕ) → j < 32 → ((32 * k + j) / 32 ≡ k) × ((32 * k + j) % 32 ≡ j)
cell j k h = (omega arith, omega arith)

pub bit-shift_one : (j k : ℕ) → j < 32 → k < 32 → bit j (shift_one k) ≡ (k == j)
unfolding shift_one_bits
bit-shift_one j k hj hk =
    rw ((cell j k hj).0, (cell j k hj).1) at
      (same_below_lem shift_one_bits (λ i. i / 32 == i % 32) 1024 (32 * k + j) shift_one_table
        (omega arith))

pub bit-complement-shift_one :
    (j k : ℕ) → j < 32 → k < 32 → bit j (complement (shift_one k)) ≡ not (k == j)
unfolding complement_bits
bit-complement-shift_one j k hj hk =
    rw ((cell j k hj).0, (cell j k hj).1) at
      (same_below_lem complement_bits (λ i. not (i / 32 == i % 32)) 1024 (32 * k + j)
        complement_table (omega arith))

-- No bit is set in common with 0.
pub masked_by_zero : (bound w : ℕ) → w ≤ bound → bit_and w 0 ≡ 0
masked_by_zero bound zero h = refl
masked_by_zero zero (suc w) h = elim h [ ]
masked_by_zero (suc bound) (suc w) h =
    omega (arith, bit_and-halves (suc w) 0, masked_by_zero bound (suc w / 2) (omega arith))

-- `w & (1 << k)` is not zero exactly when bit `k` is set.
pub bit_and-shift_one : (k w : ℕ) → (bit_and w (shift_one k) == 0) ≡ not (bit k w)
unfolding bit
bit_and-shift_one zero w =
    ground (arith, bit_and-halves w 1, masked_by_zero (w / 2) (w / 2) (omega arith))
bit_and-shift_one (suc k) w =
    ground (arith, bit_and-halves w (2 ^ suc k), pow-suc 2 k, bit_and-shift_one k (w / 2))
