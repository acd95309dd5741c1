-- ===== src/MipsSim/Meaning.antt =====
-- What the instructions that compute a register from registers compute, on words.
use Prim.Native.Nat.{bit_and, bit_or}
use nach_osx.Prelude.{
  ltb, if◌then◌else◌, ltb→lt, Bool-cases, ℕ, ◌+◌, ◌-◌, ◌*◌, ◌/◌, ◌%◌, ◌^◌, ◌≤◌, ◌<◌, ◌≡◌, refl, sym,
  ap, ◌∙◌, ◌↔◌, ◌⊎◌, inl, inr, Bool, true, false, not, ◌&&◌, ◌||◌, some, arith,
}
use nach_osx.Bits.{bit, bit-bit_and, bit-bit_or, bit-bit_xor, bit_and-halves, masked_by_zero}
use nach_osx.Words.{word_size, is_negative}
use nach_osx.MipsSim.OpCodes.{
  OpCode, op_addu, op_and, op_nor, op_or, op_sll, op_sllv, op_slt, op_sltu, op_sra, op_srav, op_srl,
  op_srlv, op_subu, op_xor,
}
use nach_osx.MipsSim.Operators.{register_result}

-- A word as an int is below another: a negative one is below the others.
pub data SignedLess (a b : ℕ) : Type 0 where
  same_sign : a < b → (a < 2 ^ 31) ↔ (b < 2 ^ 31) → SignedLess a b
  below_zero : 2 ^ 31 ≤ a → b < 2 ^ 31 → SignedLess a b

-- An int divided by 2 ^ n, rounded down, as a word.
pub arithmetic_shift : ℕ → ℕ → ℕ
arithmetic_shift w n = if ltb w (2 ^ 31) then w / 2 ^ n else 2 ^ 32 - 2 ^ 32 / 2 ^ n + w / 2 ^ n

-- `v` is what the instruction is for, of registers[rs] = `a`, registers[rt] = `b` and extra = `x`; for OR,
-- what the source has.
pub Means : OpCode → ℕ → ℕ → ℕ → ℕ → Type 0
Means op_addu a b x v = v ≡ (a + b) % 2 ^ 32
Means op_subu a b x v = (v < 2 ^ 32) × ((v + b) % 2 ^ 32 ≡ a)
Means op_and a b x v = (k : ℕ) → bit k v ≡ (bit k a && bit k b)
Means op_or a b x v = (k : ℕ) → bit k v ≡ bit k a
Means op_nor a b x v = (u : ℕ) × (v ≡ 2 ^ 32 - 1 - u) × ((k : ℕ) → bit k u ≡ (bit k a || bit k b))
Means op_sll a b x v = v ≡ b * 2 ^ x % 2 ^ 32
Means op_sllv a b x v = v ≡ b * 2 ^ (a % 32) % 2 ^ 32
Means op_slt a b x v = ((v ≡ 1) × SignedLess a b) ⊎ ((v ≡ 0) × ¬ SignedLess a b)
Means op_sltu a b x v = ((v ≡ 1) × (a < b)) ⊎ ((v ≡ 0) × (b ≤ a))
Means op_sra a b x v = v ≡ arithmetic_shift b x
Means op_srav a b x v = v ≡ arithmetic_shift b (a % 32)
Means op_srl a b x v = v ≡ arithmetic_shift b x
Means op_srlv a b x v = v ≡ arithmetic_shift b (a % 32)
Means op_xor a b x v = (k : ℕ) → bit k v ≡ not ((bit k a && bit k b) || not (bit k a || bit k b))
Means code a b x v = Unit {0}

some_injective : {x y : ℕ} → some x ≡ some y → x ≡ y
some_injective e = cc

mask_lem : (a : ℕ) → bit_and a 0x1f ≡ a % 32
mask_lem a = omega (
  arith,
  bit_and-halves a 31,
  bit_and-halves (a / 2) 15,
  bit_and-halves (a / 2 / 2) 7,
  bit_and-halves (a / 2 / 2 / 2) 3,
  bit_and-halves (a / 2 / 2 / 2 / 2) 1,
  masked_by_zero (a / 2 / 2 / 2 / 2 / 2) (a / 2 / 2 / 2 / 2 / 2) (omega arith),
)

less_lem :
    (a b : ℕ)
    → a < 2 ^ 32
    → b < 2 ^ 32
    → (ltb ((a + 2 ^ 31) % 2 ^ 32) ((b + 2 ^ 31) % 2 ^ 32) ≡ true) ↔ SignedLess a b
less_lem a b p q = (is, from)
  where
    is : ltb ((a + 2 ^ 31) % 2 ^ 32) ((b + 2 ^ 31) % 2 ^ 32) ≡ true → SignedLess a b
    is h = elim (Bool-cases (ltb a (2 ^ 31))) [
      | inl low ↦ elim (Bool-cases (ltb b (2 ^ 31))) [
        | inl low' ↦ same_sign (ground (arith, h)) (λ _. ltb→lt _ _ low', λ _. ltb→lt _ _ low)
        | inr high' ↦ absurd (ground (arith, h, low, high'))
      ]
      | inr high ↦ elim (Bool-cases (ltb b (2 ^ 31))) [
        | inl low' ↦ below_zero (ground (arith, high)) (ltb→lt _ _ low')
        | inr high' ↦
            same_sign (ground (arith, h, high, high'))
              (λ lt. absurd (ground (arith, high)), λ lt. absurd (ground (arith, high')))
      ]
    ]

    from : SignedLess a b → ltb ((a + 2 ^ 31) % 2 ^ 32) ((b + 2 ^ 31) % 2 ^ 32) ≡ true
    from (same_sign lt signs) = elim (Bool-cases (ltb a (2 ^ 31))) [
      | inl low ↦ let low' = signs.0 (ltb→lt _ _ low) in ground (arith, lt, low, low')
      | inr high ↦ elim (Bool-cases (ltb b (2 ^ 31))) [
        | inl low' ↦ absurd (ground (arith, high, signs.1 (ltb→lt _ _ low')))
        | inr high' ↦ ground (arith, lt, high, high')
      ]
    ]
    from (below_zero high low) = ground (arith, high, low)

shift_lem :
    (w n : ℕ)
    → w < 2 ^ 32
    → w / 2 ^ n + (if is_negative w then word_size - word_size / 2 ^ n else 0)
      ≡ arithmetic_shift w n
unfolding arithmetic_shift
shift_lem w n lt = ground arith

-- The value that is computed is what the instruction is for, on registers that hold words.
pub register_result-Means :
    (code : OpCode) (a b x v : ℕ)
    → a < 2 ^ 32
    → b < 2 ^ 32
    → register_result code a b x ≡ some v
    → Means code a b x v
unfolding register_result Means
register_result-Means op_addu a b x v p q e = cc
register_result-Means op_subu a b x v p q e = ground (arith, e)
register_result-Means op_and a b x v p q e =
    λ k. ap (bit k) (some_injective (sym e)) ∙ bit-bit_and k a b
register_result-Means op_or a b x v p q e = λ k. ap (bit k) (some_injective (sym e)) ∙ twice k
  where
    twice : (k : ℕ) → bit k (bit_or a a) ≡ bit k a
    twice k = bit-bit_or k a a ∙ ground arith
register_result-Means op_nor a b x v p q e =
    (bit_or a b, some_injective (sym e), λ k. bit-bit_or k a b)
register_result-Means op_sll a b x v p q e = some_injective (sym e)
register_result-Means op_sllv a b x v p q e =
    some_injective (sym e) ∙ ap (λ n. b * 2 ^ n % 2 ^ 32) (mask_lem a)
register_result-Means op_slt a b x v p q e =
    elim (Bool-cases (ltb ((a + 2 ^ 31) % 2 ^ 32) ((b + 2 ^ 31) % 2 ^ 32))) [
      | inl lt ↦ inl (some_injective (sym (rw lt at e)), (less_lem a b p q).0 lt)
      | inr ge ↦
          inr (some_injective (sym (rw ge at e)), λ s. cc (rw ge at ((less_lem a b p q).1 s)))
    ]
register_result-Means op_sltu a b x v p q e = ground (arith, e)
register_result-Means op_sra a b x v p q e = some_injective (sym e) ∙ shift_lem b x q
register_result-Means op_srav a b x v p q e =
    some_injective (sym e) ∙ (shift_lem b (bit_and a 0x1f) q ∙ ap (arithmetic_shift b) (mask_lem a))
register_result-Means op_srl a b x v p q e = some_injective (sym e) ∙ shift_lem b x q
register_result-Means op_srlv a b x v p q e =
    some_injective (sym e) ∙ (shift_lem b (bit_and a 0x1f) q ∙ ap (arithmetic_shift b) (mask_lem a))
register_result-Means op_xor a b x v p q e =
    λ k. ap (bit k) (some_injective (sym e)) ∙ bit-bit_xor k a b
register_result-Means code a b x v p q e = cc

-- The instructions that put a value into registers[rd] that is computed from registers[rs], registers[rt]
-- and extra, and cannot trap.
abbrev pub computes : OpCode → Bool
computes op_addu = true
computes op_and = true
computes op_nor = true
computes op_or = true
computes op_sll = true
computes op_sllv = true
computes op_slt = true
computes op_sltu = true
computes op_sra = true
computes op_srav = true
computes op_srl = true
computes op_srlv = true
computes op_subu = true
computes op_xor = true
computes code = false

pub computes-register_result :
    (code : OpCode) (a b x : ℕ)
    → computes code ≡ true
    → (v : ℕ) × (register_result code a b x ≡ some v)
unfolding register_result
computes-register_result op_addu a b x e = (_, refl)
computes-register_result op_and a b x e = (_, refl)
computes-register_result op_nor a b x e = (_, refl)
computes-register_result op_or a b x e = (_, refl)
computes-register_result op_sll a b x e = (_, refl)
computes-register_result op_sllv a b x e = (_, refl)
computes-register_result op_slt a b x e = (_, refl)
computes-register_result op_sltu a b x e = (_, refl)
computes-register_result op_sra a b x e = (_, refl)
computes-register_result op_srav a b x e = (_, refl)
computes-register_result op_srl a b x e = (_, refl)
computes-register_result op_srlv a b x e = (_, refl)
computes-register_result op_subu a b x e = (_, refl)
computes-register_result op_xor a b x e = (_, refl)
computes-register_result code a b x e = cc
