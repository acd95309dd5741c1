-- ===== src/MipsSim/Multiply.antt =====
-- `Mult` computes the double-length product.
use nach_osx.Words.{word_size, is_negative, negate, ones}
use nach_osx.MipsSim.{Product, mult_loop, negate_double, mult}
use native.Mathlib.Nat.{zero-mul, mul_left_comm, mul-zero, mul-le-mul}
use nach_osx.Prelude.{
  ◌==◌, if◌then◌else◌, ==_iff, Bool-cases, ℕ, zero, suc, ◌+◌, ◌-◌, ◌*◌, ◌/◌, ◌%◌, ◌≤◌, ◌<◌, ◌≡◌,
  refl, sym, ap, ◌∙◌, inl, inr, Bool, true, false, not, arith,
}
use nach_osx.MipsSim.Rounds.{sum_of_bits, LowClear, acc, multiplicand, Words, mult_loop_lem}

sum_of_bits-mul : (n c b : ℕ) → c ≤ ones n → sum_of_bits n c b ≡ c * b
unfolding sum_of_bits
sum_of_bits-mul zero c b le = let none_left : c ≡ 0 = omega arith in rw none_left (sym (zero-mul b))
sum_of_bits-mul (suc n) c b le =
    let rest : sum_of_bits n (c / 2) (2 * b) ≡ c / 2 * (2 * b) =
      sum_of_bits-mul n (c / 2) (2 * b) (omega arith) in
    let twice : c / 2 * (2 * b) ≡ 2 * (c / 2 * b) = mul_left_comm (c / 2) 2 b in
    elim (Bool-cases (c % 2 == 1)) [
      | inl odd ↦
          let c_is : c ≡ c / 2 + c / 2 + 1 = ground (arith, odd) in
          rw odd (omega (arith, rest, twice, ap (λ x. x * b) c_is))
      | inr even ↦
          let c_is : c ≡ c / 2 + c / 2 = ground (arith, even) in
          rw even (omega (arith, rest, twice, ap (λ x. x * b) c_is))
    ]

mul_fits : (a b : ℕ) → a < word_size → b < word_size → a * b < word_size * word_size
mul_fits a b h k =
    let below : a * b ≤ 0xffff_ffff * 0xffff_ffff =
      mul-le-mul {n₂ = 0xffff_ffff} {m₂ = 0xffff_ffff} (omega arith) (omega arith) in
    omega arith

LowClear-zero : (n : ℕ) → LowClear n 0
LowClear-zero zero = tt
LowClear-zero (suc n) = (refl, LowClear-zero n)

abbrev start : ℕ → ℕ → Product
start a b = record { a = a; b_lo = b; b_hi = 0; lo = 0; hi = 0 }

whole_product :
    (a b : ℕ)
    → a < word_size
    → b < word_size
    → Words (mult_loop 32 (start a b)) × (acc (mult_loop 32 (start a b)) ≡ a * b)
whole_product a b h k =
    let b_is : multiplicand (start a b) ≡ b = omega arith in
    let bits : sum_of_bits 32 a (multiplicand (start a b)) ≡ a * b =
      ap (sum_of_bits 32 a) b_is ∙ sum_of_bits-mul 32 a b (omega arith) in
    let (w, total) =
      mult_loop_lem 32 (start a b) a 0 (omega arith)
        (record {
          a_word = h;
          b_lo_word = k;
          b_hi_word = omega arith;
          lo_word = omega arith;
          hi_word = omega arith;
        })
        (omega arith) (omega arith) (LowClear-zero 32) (omega (arith, bits, mul_fits a b h k)) in
    (w, omega (arith, total, bits))

abbrev pub double_word : ℕ × ℕ → ℕ
double_word (hi, lo) = hi * word_size + lo

negate_double_lem :
    (hi lo : ℕ)
    → hi < word_size
    → lo < word_size
    → double_word (negate_double (hi, lo))
      ≡ (word_size * word_size - (hi * word_size + lo)) % (word_size * word_size)
unfolding negate_double
negate_double_lem hi lo h k = ground arith

-- The absolute value of the int.
abbrev pub magnitude : ℕ → ℕ
magnitude w = if is_negative w then negate w else w

magnitude-word : (w : ℕ) → w < word_size → magnitude w < word_size
magnitude-word w h = ground arith

-- MULTU: the words at *hiPtr and *loPtr are the product of the two unsigned words.
pub mult_unsigned : (a b : ℕ) → a < word_size → b < word_size → double_word (mult a b false) ≡ a * b
unfolding mult
mult_unsigned a b h k =
    let (w, total) = whole_product a b h k in
    elim (Bool-cases (a == 0)) [
      | inl zero_a ↦ let is : a ≡ 0 = (==_iff a 0).0 zero_a in rw is (sym (zero-mul b))
      | inr some_a ↦ elim (Bool-cases (b == 0)) [
        | inl zero_b ↦ let is : b ≡ 0 = (==_iff b 0).0 zero_b in rw (some_a, is) (sym (mul-zero a))
        | inr some_b ↦ rw (some_a, some_b) total
      ]
    ]

zero_product :
    (negative : Bool) (m : ℕ)
    → 0 ≡ (
        if (if negative then true else false)
        then (word_size * word_size - 0 * m) % (word_size * word_size)
        else 0 * m)
zero_product true m = omega (arith, zero-mul m)
zero_product false m = sym (zero-mul m)

product_zero :
    (negative : Bool) (m : ℕ)
    → 0 ≡ (if negative then (word_size * word_size - m * 0) % (word_size * word_size) else m * 0)
product_zero true m = omega (arith, mul-zero m)
product_zero false m = sym (mul-zero m)

-- MULT: they are the product of the absolute values of the two ints when both have the same sign, and
-- else the two's complement of it on 64 bits.
pub mult_signed :
    (a b : ℕ)
    → a < word_size
    → b < word_size
    → double_word (mult a b true) ≡ (
        if (if is_negative b then not (is_negative a) else is_negative a)
        then (word_size * word_size - magnitude a * magnitude b) % (word_size * word_size)
        else magnitude a * magnitude b)
unfolding mult
mult_signed a b h k =
    let (w, total) =
      whole_product (magnitude a) (magnitude b) (magnitude-word a h) (magnitude-word b k) in
    elim (Bool-cases (a == 0)) [
      | inl zero_a ↦
          let is : a ≡ 0 = (==_iff a 0).0 zero_a in
          rw is (zero_product (is_negative b) (magnitude b))
      | inr some_a ↦ elim (Bool-cases (b == 0)) [
        | inl zero_b ↦
            let is : b ≡ 0 = (==_iff b 0).0 zero_b in
            rw (some_a, is) (product_zero (is_negative a) (magnitude a))
        | inr some_b ↦
            rw (some_a, some_b)
              (elim (Bool-cases (if is_negative b then not (is_negative a) else is_negative a)) [
                | inl neg ↦ rw neg (negate_double_lem _ _ w.hi_word w.lo_word ∙ rw total)
                | inr non ↦ rw non total
              ])
      ]
    ]
