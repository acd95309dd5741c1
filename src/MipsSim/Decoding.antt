-- ===== src/MipsSim/Decoding.antt =====
-- `Instruction::Decode` of machine/mipssim.cc: the fields of an instruction. An int
-- and an unsigned int are a word; the codes of the operations are constructors.
use Prim.Native.Nat.{bit_and, bit_or}
use nach_osx.Prelude.{◌==◌, if◌then◌else◌, get_or, ℕ, ◌/◌, ◌^◌}
use nach_osx.MipsSim.OpCodes.{
  OpCode, Format, row, op_table, special_table, ifmt, jfmt, rfmt, op_bltz, op_bgez, op_bltzal,
  op_bgezal, op_unimp, op_res, special, bcond,
}

pub record Instruction : Type 0 where
  pub value : ℕ
  pub op_code : OpCode
  pub rs : ℕ
  pub rt : ℕ
  pub rd : ℕ
  pub extra : ℕ

-- The operand of the instruction, by the format of its row.
unfoldable pub decode_extra : Format → ℕ → ℕ
decode_extra ifmt value =
    let extra = bit_and value 0xffff in
    if bit_and extra 0x8000 == 0 then extra else bit_or extra 0xffff_0000
decode_extra rfmt value = bit_and (value / 2 ^ 6) 0x1f
decode_extra jfmt value = bit_and value 0x3ff_ffff

-- The branches that the field of rt tells apart.
unfoldable pub decode_branch : ℕ → OpCode
decode_branch i =
    if i == 0
    then op_bltz
    else if i == 0x1_0000
    then op_bgez
    else if i == 0x10_0000
    then op_bltzal
    else if i == 0x11_0000
    then op_bgezal
    else op_unimp

unfoldable pub decode_op_code : OpCode → ℕ → OpCode
unfolding special_table decode_branch
decode_op_code special value = get_or special_table (bit_and value 0x3f) op_res
decode_op_code bcond value = decode_branch (bit_and value 0x1f_0000)
decode_op_code code value = code

-- The default for an index past the end of the table is never taken: an index of six bits is below 64.
unfoldable pub decode : ℕ → Instruction
unfolding op_table decode_extra decode_op_code
decode value =
    let info = get_or op_table (bit_and (value / 2 ^ 26) 0x3f) (row op_res ifmt) in
    record {
      value = value;
      op_code = decode_op_code info.op_code value;
      rs = bit_and (value / 2 ^ 21) 0x1f;
      rt = bit_and (value / 2 ^ 16) 0x1f;
      rd = bit_and (value / 2 ^ 11) 0x1f;
      extra = decode_extra info.format value;
    }
