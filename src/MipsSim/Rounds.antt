-- ===== src/MipsSim/Rounds.antt =====
-- The rounds of the loop of `Mult`.
use Prim.Native.Nat.{bit_and}
use nach_osx.Words.{word_size, is_negative, half, ones, bit_and-one, bit_or-one, bit_and-but_one}
use nach_osx.MipsSim.{Product, add_shifted, shift, mult_loop}
use native.Mathlib.Nat.{pow-suc}
use nach_osx.Prelude.{
  ◌==◌, if◌then◌else◌, Bool-cases, ℕ, zero, suc, ◌+◌, ◌*◌, ◌/◌, ◌%◌, ◌^◌, ◌≤◌, ◌<◌, ◌≡◌, refl, sym,
  ap, ◌∙◌, inl, inr, true, false, arith,
}

-- The product that `n` rounds add up for the multiplier `c` and the shifted multiplicand `b`.
unfoldable pub sum_of_bits : ℕ → ℕ → ℕ → ℕ
sum_of_bits zero c b = 0
sum_of_bits (suc n) c b = (if c % 2 == 1 then b else 0) + sum_of_bits n (c / 2) (2 * b)

-- The lowest `n` bits of `h` are 0.
abbrev pub LowClear : ℕ → ℕ → Type 0
LowClear zero h = Unit {0}
LowClear (suc n) h = (h % 2 ≡ 0) × LowClear n (h / 2)

LowClear-add : (n k h : ℕ) → n ≤ k → LowClear n h → LowClear n (h + 2 ^ k)
LowClear-add zero k h le c = tt
LowClear-add (suc n) zero h le c = absurd (omega arith)
LowClear-add (suc n) (suc k) h le c =
    let halved : (h + 2 ^ suc k) / 2 ≡ h / 2 + 2 ^ k = omega (arith, pow-suc 2 k) in
    (omega (arith, pow-suc 2 k, c.0), rw halved (LowClear-add n k (h / 2) (omega arith) c.1))

abbrev pub acc : Product → ℕ
acc p = p.hi * word_size + p.lo

abbrev pub multiplicand : Product → ℕ
multiplicand p = p.b_hi * word_size + p.b_lo

-- All variables are words.
pub record Words (p : Product) : Type 0 where
  pub a_word : p.a < word_size
  pub b_lo_word : p.b_lo < word_size
  pub b_hi_word : p.b_hi < word_size
  pub lo_word : p.lo < word_size
  pub hi_word : p.hi < word_size

add_shifted_lem :
    (p : Product)
    → Words p
    → acc p + multiplicand p < word_size * word_size
    → Words (add_shifted p) × (acc (add_shifted p) ≡ acc p + multiplicand p)
unfolding add_shifted
add_shifted_lem p w small = (
  record {
    a_word = w.a_word;
    b_lo_word = w.b_lo_word;
    b_hi_word = w.b_hi_word;
    lo_word = omega arith;
    hi_word = omega arith;
  },
  ground (arith, w.b_lo_word, w.b_hi_word, w.lo_word, w.hi_word),
)

shift_lem :
    (p : Product)
    → Words p
    → Words (shift p)
      × (multiplicand (shift p) ≡ (2 * multiplicand p) % (word_size * word_size))
      × (acc (shift p) ≡ acc p)
unfolding shift
shift_lem p w =
    let even : ((p.b_hi * 2) % word_size) % 2 ≡ 0 = omega arith in
    let carried = bit_or-one ((p.b_hi * 2) % word_size) even in
    (
      record {
        a_word = ground (arith, w.a_word);
        b_lo_word = omega arith;
        b_hi_word = ground (arith, carried, even);
        lo_word = w.lo_word;
        hi_word = w.hi_word;
      },
      ground (arith, w.b_lo_word, w.b_hi_word, carried),
      refl,
    )

sum_zero : (n b : ℕ) → sum_of_bits n 0 b ≡ 0
unfolding sum_of_bits
sum_zero zero b = refl
sum_zero (suc n) b = omega (arith, sum_zero n (2 * b))

-- A multiplier that is not 0 adds the multiplicand at least once.
sum_pos : (n c b : ℕ) → 0 < c → c ≤ ones n → b ≤ sum_of_bits n c b
unfolding sum_of_bits
sum_pos zero c b h le = absurd (omega arith)
sum_pos (suc n) c b h le = elim (Bool-cases (c % 2 == 1)) [
  | inl odd ↦ ground (arith, odd)
  | inr even ↦ ground (arith, even, sum_pos n (c / 2) (2 * b) (ground arith) (omega arith))
]

-- What is shifted out of the multiplicand is not added any more.
sum_of_shifted :
    (n c b : ℕ)
    → c ≤ ones n
    → sum_of_bits n c b < word_size * word_size
    → sum_of_bits n c (b % (word_size * word_size)) ≡ sum_of_bits n c b
sum_of_shifted n zero b le small = sum_zero n (b % (word_size * word_size)) ∙ sym (sum_zero n b)
sum_of_shifted n (suc c) b le small =
    let same : b % (word_size * word_size) ≡ b =
      omega (arith, sum_pos n (suc c) b (omega arith) le) in
    ap (λ b. sum_of_bits n (suc c) b) same

-- An arithmetic shift halves the lower bits and leaves 0 below those that it copies.
half_lem :
    (n a c h : ℕ)
    → n ≤ 31
    → a < word_size
    → a ≡ c + h
    → LowClear (suc n) h
    → (h' : ℕ) × (half a ≡ c / 2 + h') × LowClear n h'
half_lem n a c h le w e clear = elim (Bool-cases (is_negative a)) [
  | inl neg ↦
      (h / 2 + 2 ^ 31, rw neg (omega (arith, clear.0)), LowClear-add n 31 (h / 2) le clear.1)
  | inr other ↦ (h / 2, rw other (omega (arith, clear.0)), clear.1)
]

add_shifted_a : (p : Product) → (add_shifted p).a ≡ p.a
unfolding add_shifted
add_shifted_a p = refl

add_shifted_b : (p : Product) → multiplicand (add_shifted p) ≡ multiplicand p
unfolding add_shifted
add_shifted_b p = refl

shift_a : (p : Product) → (shift p).a ≡ half p.a
unfolding shift
shift_a p = refl

-- `n` rounds add the product of the multiplicand and the lower `n` bits of the multiplier.
abbrev pub Adds : ℕ → Type 0
Adds n =
    (p : Product) (c h : ℕ)
    → n ≤ 32
    → Words p
    → p.a ≡ c + h
    → c ≤ ones n
    → LowClear n h
    → acc p + sum_of_bits n c (multiplicand p) < word_size * word_size
    → Words (mult_loop n p) × (acc (mult_loop n p) ≡ acc p + sum_of_bits n c (multiplicand p))

-- The rounds that follow a shift.
after_shift :
    (n : ℕ)
    → Adds n
    → (p : Product) (c h : ℕ) → n ≤ 31
    → Words p
    → p.a ≡ c + h
    → c ≤ ones (suc n)
    → LowClear (suc n) h
    → acc p + sum_of_bits n (c / 2) (2 * multiplicand p) < word_size * word_size
    → Words (mult_loop n (shift p))
      × (acc (mult_loop n (shift p)) ≡ acc p + sum_of_bits n (c / 2) (2 * multiplicand p))
after_shift n adds p c h le w e small clear room =
    let (w', shifted, kept) = shift_lem p w in
    let (h', halved, clear') = half_lem n p.a c h le w.a_word e clear in
    let same : sum_of_bits n (c / 2) (multiplicand (shift p))
        ≡ sum_of_bits n (c / 2) (2 * multiplicand p) =
      ap (sum_of_bits n (c / 2)) shifted
      ∙ sum_of_shifted n (c / 2) (2 * multiplicand p) (omega arith) (omega arith) in
    let (words, total) =
      adds (shift p) (c / 2) h' (omega arith) w' (shift_a p ∙ halved) (omega arith) clear'
        (omega (arith, same, kept)) in
    (words, omega (arith, total, same, kept))

pub mult_loop_lem : (n : ℕ) → Adds n
unfolding mult_loop sum_of_bits
mult_loop_lem zero p c h le w e small clear fits = (w, omega arith)
mult_loop_lem (suc n) p c h le w e small clear fits = elim (Bool-cases (p.a % 2 == 1)) [
  | inl odd ↦
      let one : bit_and p.a 1 ≡ 1 = ground (arith, bit_and-one p.a, odd) in
      let c_odd : (c % 2 == 1) ≡ true = ground (arith, odd, clear.0) in
      let (w₁, added) = add_shifted_lem p w (ground (arith, c_odd, fits)) in
      let same_b = ap (λ b. sum_of_bits n (c / 2) (2 * b)) (add_shifted_b p) in
      let shifted_fits : acc p
            + multiplicand p
            + sum_of_bits n (c / 2) (2 * multiplicand (add_shifted p))
          < word_size * word_size =
        ground (arith, c_odd, fits, same_b) in
      rw (one, c_odd)
        (elim (Bool-cases (bit_and p.a 0xffff_fffe == 0)) [
          | inl last ↦
              let one_left : p.a < 2 = bit_and-but_one p.a w.a_word (ground (arith, last)) in
              let c_done : c / 2 ≡ 0 = omega (arith, clear.0) in
              rw (last, c_done) (w₁, omega (arith, added, sum_zero n (2 * multiplicand p)))
          | inr more ↦
              let (w₂, total) =
                after_shift n (mult_loop_lem n) (add_shifted p) c h (omega arith) w₁
                  (add_shifted_a p ∙ e) small clear (omega (arith, added, shifted_fits)) in
              rw more (w₂, omega (arith, total, added, same_b))
        ])
  | inr even ↦
      let none_set : (bit_and p.a 1 == 1) ≡ false = ground (arith, bit_and-one p.a, even) in
      let c_even : (c % 2 == 1) ≡ false = ground (arith, even, clear.0) in
      let (w', total) =
        after_shift n (mult_loop_lem n) p c h (omega arith) w e small clear
          (ground (arith, c_even, fits)) in
      rw (none_set, c_even) (w', omega (arith, total))
]
