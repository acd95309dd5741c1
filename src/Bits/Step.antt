-- ===== src/Bits/Step.antt =====
-- The lowest digit of `bit_or` and `bit_and`, and what they leave above it.
use Prim.Native.Nat.{
  digits, bitwise, differ, bit_and, bit_or, bit_xor, bit_and-bitwise, bit_or-bitwise,
  bit_xor-bitwise,
}
use nach_osx.Prelude.{
  ℕ, zero, suc, ◌+◌, ◌*◌, ◌/◌, ◌%◌, ◌≤◌, ◌<◌, min, max, ◌≡◌, refl, sym, ap, ◌∙◌, arith,
}

module _ (at_end : ℕ → ℕ) (digit : ℕ → ℕ → ℕ) where
  no_digits : (fuel b : ℕ) → digits at_end digit fuel 0 b ≡ at_end b
  no_digits zero b = refl
  no_digits (suc fuel) b = refl

  -- A number has no more digits than its value, and fuel above that changes nothing.
  spare_fuel :
      (a less more b : ℕ)
      → less ≤ more
      → a ≤ less
      → digits at_end digit more a b ≡ digits at_end digit less a b
  spare_fuel zero less more b h k = no_digits more b ∙ sym (no_digits less b)
  spare_fuel (suc a) zero more b h k = elim k [ ]
  spare_fuel (suc a) (suc less) zero b h k = elim h [ ]
  spare_fuel (suc a) (suc less) (suc more) b h k =
      ap (λ high. high * 2 + digit (suc a % 2) (b % 2))
        (spare_fuel (suc a / 2) less more (b / 2) (omega arith) (omega arith))

  -- A result below 2 for each digit makes the digits those of the number.
  halves_of :
      (a b : ℕ)
      → digit (suc a % 2) (b % 2) < 2
      → (bitwise at_end digit (suc a) b / 2 ≡ bitwise at_end digit (suc a / 2) (b / 2))
        × (bitwise at_end digit (suc a) b % 2 ≡ digit (suc a % 2) (b % 2))
  halves_of a b small =
      let high = spare_fuel (suc a / 2) (suc a / 2) a (b / 2) (omega arith) (omega arith) in
      (omega (arith, high), omega (arith, high))

pub bit_or-halves :
    (a b : ℕ) → (bit_or a b / 2 ≡ bit_or (a / 2) (b / 2)) × (bit_or a b % 2 ≡ max (a % 2) (b % 2))
bit_or-halves zero b = simp bit_or-bitwise (refl, omega arith)
bit_or-halves (suc a) b = simp bit_or-bitwise (halves_of (λ b. b) max a b (omega arith))

pub bit_and-halves :
    (a b : ℕ)
    → (bit_and a b / 2 ≡ bit_and (a / 2) (b / 2)) × (bit_and a b % 2 ≡ min (a % 2) (b % 2))
bit_and-halves zero b = simp bit_and-bitwise (refl, omega arith)
bit_and-halves (suc a) b = simp bit_and-bitwise (halves_of (λ b. 0) min a b (omega arith))

differ_lem : (x y : ℕ) → x < 2 → y < 2 → differ x y ≡ (x + y) % 2
differ_lem zero zero p q = refl
differ_lem zero (suc zero) p q = refl
differ_lem (suc zero) zero p q = refl
differ_lem (suc zero) (suc zero) p q = refl
differ_lem (suc (suc x)) y p q = absurd (omega arith)
differ_lem x (suc (suc y)) p q = absurd (omega arith)

pub bit_xor-halves :
    (a b : ℕ)
    → (bit_xor a b / 2 ≡ bit_xor (a / 2) (b / 2)) × (bit_xor a b % 2 ≡ (a % 2 + b % 2) % 2)
bit_xor-halves zero b = simp bit_xor-bitwise (refl, omega arith)
bit_xor-halves (suc a) b =
    let d = differ_lem (suc a % 2) (b % 2) (omega arith) (omega arith) in
    let h = halves_of (λ b. b) differ a b (omega (arith, d)) in simp bit_xor-bitwise (h.0, h.1 ∙ d)
