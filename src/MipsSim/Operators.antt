-- ===== src/MipsSim/Operators.antt =====
-- The values that the cases of `OneInstruction` compute, on 32-bit words.
use Prim.Native.Nat.{bit_and, bit_or, bit_xor}
use nach_osx.Words.{word_size, sign_bit, is_negative, negate}
use nach_osx.MipsSim.OpCodes.{
  OpCode, op_addiu, op_addu, op_and, op_andi, op_beq, op_bgez, op_bgezal, op_bgtz, op_blez, op_bltz,
  op_bltzal, op_bne, op_lb, op_lbu, op_lh, op_lhu, op_lui, op_nor, op_or, op_ori, op_sll, op_sllv,
  op_slt, op_slti, op_sltiu, op_sltu, op_sra, op_srav, op_srl, op_srlv, op_subu, op_xor, op_xori,
}
use nach_osx.Prelude.{
  ltb, ◌==◌, if◌then◌else◌, ℕ, ◌+◌, ◌-◌, ◌*◌, ◌/◌, ◌%◌, ◌^◌, Bool, false, not, Option, none, some,
}

-- The operators of C on 32-bit words.
abbrev pub plus : ℕ → ℕ → ℕ
plus a b = (a + b) % word_size

abbrev pub minus : ℕ → ℕ → ℕ
minus a b = (a + (word_size - b)) % word_size

abbrev pub shift_left : ℕ → ℕ → ℕ
shift_left w k = w * 2 ^ k % word_size

-- `>>` on an int copies the sign.
abbrev pub shift_right : ℕ → ℕ → ℕ
shift_right w k = w / 2 ^ k + (if is_negative w then word_size - word_size / 2 ^ k else 0)

abbrev pub bit_not : ℕ → ℕ
bit_not w = word_size - 1 - w

-- `<` on int
abbrev pub less : ℕ → ℕ → Bool
less a b = ltb ((a + sign_bit) % word_size) ((b + sign_bit) % word_size)

abbrev pub has_sign : ℕ → Bool
has_sign w = not (bit_and w sign_bit == 0)

abbrev pub one_or_zero : Bool → ℕ
one_or_zero b = if b then 1 else 0

-- `/` and `%` on int, which round towards 0.
abbrev pub absolute : ℕ → ℕ
absolute w = if is_negative w then negate w else w

abbrev pub quotient : ℕ → ℕ → ℕ
quotient a b =
    let q = absolute a / absolute b in
    if (if is_negative a then not (is_negative b) else is_negative b) then negate q else q

abbrev pub remainder : ℕ → ℕ → ℕ
remainder a b = let r = absolute a % absolute b in if is_negative a then negate r else r

-- The value for registers[rd], from registers[rs], registers[rt] and extra.
unfoldable pub register_result : OpCode → ℕ → ℕ → ℕ → Option ℕ
register_result op_addu rs rt extra = some (plus rs rt)
register_result op_and rs rt extra = some (bit_and rs rt)
register_result op_nor rs rt extra = some (bit_not (bit_or rs rt))
register_result op_or rs rt extra = some (bit_or rs rs)
register_result op_sll rs rt extra = some (shift_left rt extra)
register_result op_sllv rs rt extra = some (shift_left rt (bit_and rs 0x1f))
register_result op_slt rs rt extra = some (one_or_zero (less rs rt))
register_result op_sltu rs rt extra = some (one_or_zero (ltb rs rt))
register_result op_sra rs rt extra = some (shift_right rt extra)
register_result op_srav rs rt extra = some (shift_right rt (bit_and rs 0x1f))
register_result op_srl rs rt extra = some (shift_right rt extra)
register_result op_srlv rs rt extra = some (shift_right rt (bit_and rs 0x1f))
register_result op_subu rs rt extra = some (minus rs rt)
register_result op_xor rs rt extra = some (bit_xor rs rt)
register_result code rs rt extra = none

-- The value for registers[rt], from registers[rs] and extra.
pub immediate_result : OpCode → ℕ → ℕ → Option ℕ
immediate_result op_addiu rs extra = some (plus rs extra)
immediate_result op_andi rs extra = some (bit_and rs (bit_and extra 0xffff))
immediate_result op_lui rs extra = some (shift_left extra 16)
immediate_result op_ori rs extra = some (bit_or rs (bit_and extra 0xffff))
immediate_result op_slti rs extra = some (one_or_zero (less rs extra))
immediate_result op_sltiu rs extra = some (one_or_zero (ltb rs extra))
immediate_result op_xori rs extra = some (bit_xor rs (bit_and extra 0xffff))
immediate_result code rs extra = none

-- Whether a branch is taken.
unfoldable pub branch_taken : OpCode → ℕ → ℕ → Bool
branch_taken op_beq rs rt = rs == rt
branch_taken op_bgezal rs rt = not (has_sign rs)
branch_taken op_bgez rs rt = not (has_sign rs)
branch_taken op_bgtz rs rt = less 0 rs
branch_taken op_blez rs rt = not (less 0 rs)
branch_taken op_bltzal rs rt = has_sign rs
branch_taken op_bltz rs rt = has_sign rs
branch_taken op_bne rs rt = not (rs == rt)
branch_taken code rs rt = false

-- The word that LWL and LWR load, for the value before and the word read.
unfoldable pub merge_left : ℕ → ℕ → ℕ → ℕ
merge_left place old value =
    if place == 0
    then value
    else if place == 1
    then bit_or (bit_and old 0xff) (shift_left value 8)
    else if place == 2
    then bit_or (bit_and old 0xffff) (shift_left value 16)
    else bit_or (bit_and old 0xff_ffff) (shift_left value 24)

unfoldable pub merge_right : ℕ → ℕ → ℕ → ℕ
merge_right place old value =
    if place == 0
    then bit_or (bit_and old 0xffff_ff00) (bit_and (shift_right value 24) 0xff)
    else if place == 1
    then bit_or (bit_and old 0xffff_0000) (bit_and (shift_right value 16) 0xffff)
    else if place == 2
    then bit_or (bit_and old 0xff00_0000) (bit_and (shift_right value 8) 0xff_ffff)
    else value

-- The words that SWL and SWR store.
unfoldable pub spread_left : ℕ → ℕ → ℕ → ℕ
spread_left place old value =
    if place == 0
    then value
    else if place == 1
    then bit_or (bit_and old 0xff00_0000) (bit_and (shift_right value 8) 0xff_ffff)
    else if place == 2
    then bit_or (bit_and old 0xffff_0000) (bit_and (shift_right value 16) 0xffff)
    else bit_or (bit_and old 0xffff_ff00) (bit_and (shift_right value 24) 0xff)

unfoldable pub spread_right : ℕ → ℕ → ℕ → ℕ
spread_right place old value =
    if place == 0
    then bit_or (bit_and old 0xff_ffff) (shift_left value 24)
    else if place == 1
    then bit_or (bit_and old 0xffff) (shift_left value 16)
    else if place == 2
    then bit_or (bit_and old 0xff) (shift_left value 8)
    else value

-- The value that a load leaves for nextLoadValue.
unfoldable pub loaded : OpCode → ℕ → ℕ
loaded op_lb value =
    if bit_and value 0x80 == 0 then bit_and value 0xff else bit_or value 0xffff_ff00
loaded op_lbu value = bit_and value 0xff
loaded op_lh value =
    if bit_and value 0x8000 == 0 then bit_and value 0xffff else bit_or value 0xffff_0000
loaded op_lhu value = bit_and value 0xffff
loaded code value = value
