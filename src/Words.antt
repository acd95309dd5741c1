-- ===== src/Words.antt =====
-- The 32-bit words that the kernel computes with: an int is the word of its two's complement.
use native.Mathlib.Nat.{pow-suc}
use nach_osx.Bits.{bit_or-halves, bit_and-halves, masked_by_zero}
use Prim.Native.Nat.{bit_and, bit_or}
use nach_osx.Prelude.{
  leb, if◌then◌else◌, ℕ, zero, suc, ◌+◌, ◌-◌, ◌*◌, ◌/◌, ◌%◌, ◌^◌, ◌≤◌, ◌<◌, ◌≡◌, refl, ap, ◌∙◌,
  Bool, List, ℤ, pos, negsuc, [], ◌∷◌, arith,
}

abbrev pub word_size : ℕ
word_size = 0x1_0000_0000

abbrev pub sign_bit : ℕ
sign_bit = 0x8000_0000

abbrev pub is_negative : ℕ → Bool
is_negative w = leb sign_bit w

-- `-a` and `a >> 1` on int
abbrev pub negate : ℕ → ℕ
negate w = (word_size - w) % word_size

abbrev pub half : ℕ → ℕ
half w = if is_negative w then w / 2 + sign_bit else w / 2

-- The integer that a word stands for, and back.
unfoldable pub int_word : ℤ → ℕ
int_word (pos n) = n
int_word (negsuc n) = word_size - 1 - n

unfoldable pub word_int : ℕ → ℤ
word_int w = if is_negative w then negsuc (word_size - 1 - w) else pos w

-- The bytes of a number, the lowest first, as a little-endian host stores it.
abbrev pub to_bytes : ℕ → ℕ → List ℕ
to_bytes zero w = []
to_bytes (suc n) w = (w % 256) ∷ to_bytes n (w / 256)

abbrev pub from_bytes : List ℕ → ℕ
from_bytes [] = 0
from_bytes (b ∷ bs) = b + 256 * from_bytes bs

added_zero : (bound w : ℕ) → w ≤ bound → bit_or w 0 ≡ w
added_zero bound zero h = refl
added_zero zero (suc w) h = elim h [ ]
added_zero (suc bound) (suc w) h =
    omega (arith, bit_or-halves (suc w) 0, added_zero bound (suc w / 2) (omega arith))

pub bit_and-one : (w : ℕ) → bit_and w 1 ≡ w % 2
bit_and-one w = omega (arith, bit_and-halves w 1, masked_by_zero (w / 2) (w / 2) (omega arith))

pub bit_or-one : (w : ℕ) → w % 2 ≡ 0 → bit_or w 1 ≡ w + 1
bit_or-one w h = omega (arith, bit_or-halves w 1, added_zero (w / 2) (w / 2) (omega arith))

-- The word of `n` ones.
abbrev pub ones : ℕ → ℕ
ones zero = 0
ones (suc n) = 2 * ones n + 1

masked_by_ones : (n w : ℕ) → w ≤ ones n → bit_and w (ones n) ≡ 0 → w ≡ 0
masked_by_ones zero w h e = omega arith
masked_by_ones (suc n) w h e =
    let (high, low) = bit_and-halves w (ones (suc n)) in
    let same : ones (suc n) / 2 ≡ ones n = omega arith in
    let rest : bit_and (w / 2) (ones (suc n) / 2) ≡ 0 = omega (arith, high, e) in
    let zero_above : w / 2 ≡ 0 = masked_by_ones n (w / 2) (omega arith) (rw same at rest) in
    omega (arith, zero_above, low, e)

-- No bit of a word but the lowest is set.
pub bit_and-but_one : (w : ℕ) → w < word_size → bit_and w 0xffff_fffe ≡ 0 → w < 2
bit_and-but_one w h e =
    omega
      (arith, masked_by_ones 31 (w / 2) (omega arith) (omega (arith, bit_and-halves w 0xffff_fffe)))

-- A mask of `n` ones keeps the lower `n` bits.
pub bit_and-ones :
    (n w : ℕ) → (high : ℕ) × (w ≡ bit_and w (ones n) + 2 ^ n * high) × (bit_and w (ones n) < 2 ^ n)
bit_and-ones zero w = (
  w,
  omega (arith, masked_by_zero w w (omega arith)),
  omega (arith, masked_by_zero w w (omega arith)),
)
bit_and-ones (suc n) w =
    let (high, split, small) = bit_and-ones n (w / 2) in
    let (upper, lower) = bit_and-halves w (ones (suc n)) in
    let same : ones (suc n) / 2 ≡ ones n = omega arith in
    let upper_is : bit_and w (ones (suc n)) / 2 ≡ bit_and (w / 2) (ones n) =
      upper ∙ ap (bit_and (w / 2)) same in
    let lower_is : bit_and w (ones (suc n)) % 2 ≡ w % 2 = omega (arith, lower) in
    (
      high,
      omega (arith, split, upper_is, lower_is, ap (λ p. p * high) (pow-suc 2 n)),
      omega (arith, small, upper_is, lower_is, pow-suc 2 n),
    )
