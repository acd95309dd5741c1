-- ===== src/MipsSim.antt =====
-- machine/mipssim.cc and machine/mipssim.h: decoding an instruction of the MIPS R2000 and multiplying.
pub mod Meaning
pub mod Rounds
pub mod Multiply
pub mod OpCodes
pub mod Decoding
pub mod Operators
pub mod Fields
pub mod Executable
use Prim.Native.Nat.{bit_and, bit_or}
use nach_osx.Words.{word_size, is_negative, negate, half}
use nach_osx.Prelude.{
  ltb, ◌==◌, if◌then◌else◌, ℕ, zero, suc, ◌+◌, ◌-◌, ◌*◌, ◌%◌, Bool, not, ◌&&◌, ◌||◌,
}

-- The unsigned variables of `Mult` and its `a`.
pub record Product : Type 0 where
  pub a : ℕ
  pub b_lo : ℕ
  pub b_hi : ℕ
  pub lo : ℕ
  pub hi : ℕ

-- lo += bLo, with the carry, and hi += bHi
pub add_shifted : Product → Product
add_shifted p =
    let lo' = (p.lo + p.b_lo) % word_size in
    let hi' = if ltb lo' p.b_lo then (p.hi + 1) % word_size else p.hi in
    record p { lo = lo'; hi = (hi' + p.b_hi) % word_size }

pub shift : Product → Product
shift p =
    let b_hi' = (p.b_hi * 2) % word_size in
    record p {
      b_hi = if is_negative p.b_lo then bit_or b_hi' 1 else b_hi';
      b_lo = (p.b_lo * 2) % word_size;
      a = half p.a;
    }

pub mult_loop : ℕ → Product → Product
unfolding add_shifted shift
mult_loop zero p = p
mult_loop (suc n) p =
    if bit_and p.a 1 == 1
    then (let rest = mult_loop n (shift (add_shifted p)) in
        if bit_and p.a 0xffff_fffe == 0 then add_shifted p else rest)
    else mult_loop n (shift p)

-- hi = ~hi; lo = ~lo; lo++; if (lo == 0) hi++
pub negate_double : ℕ × ℕ → ℕ × ℕ
negate_double (hi, lo) =
    let lo' = (word_size - 1 - lo + 1) % word_size in
    let hi' = word_size - 1 - hi in (if lo' == 0 then (hi' + 1) % word_size else hi', lo')

-- The words for *hiPtr and *loPtr.
pub mult : ℕ → ℕ → Bool → ℕ × ℕ
mult a b signed_arith =
    if (a == 0) || (b == 0)
    then (0, 0)
    else let a_negative = signed_arith && is_negative a in
      let b_negative = signed_arith && is_negative b in
      let p = mult_loop 32 (record {
        a = if a_negative then negate a else a;
        b_lo = if b_negative then negate b else b;
        b_hi = 0;
        lo = 0;
        hi = 0;
      }) in
      let negative = if b_negative then not a_negative else a_negative in
      if negative then negate_double (p.hi, p.lo) else (p.hi, p.lo)
