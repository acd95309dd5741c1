-- ===== src/MipsSim/OpCodes.antt =====
-- The operations of machine/mipssim.h and its tables `opTable` and `specialTable`.
use nach_osx.Prelude.{List, [], ◌∷◌}

pub data OpCode : Type 0 where
  op_add : OpCode
  op_addi : OpCode
  op_addiu : OpCode
  op_addu : OpCode
  op_and : OpCode
  op_andi : OpCode
  op_beq : OpCode
  op_bgez : OpCode
  op_bgezal : OpCode
  op_bgtz : OpCode
  op_blez : OpCode
  op_bltz : OpCode
  op_bltzal : OpCode
  op_bne : OpCode
  op_div : OpCode
  op_divu : OpCode
  op_j : OpCode
  op_jal : OpCode
  op_jalr : OpCode
  op_jr : OpCode
  op_lb : OpCode
  op_lbu : OpCode
  op_lh : OpCode
  op_lhu : OpCode
  op_lui : OpCode
  op_lw : OpCode
  op_lwl : OpCode
  op_lwr : OpCode
  op_mfhi : OpCode
  op_mflo : OpCode
  op_mthi : OpCode
  op_mtlo : OpCode
  op_mult : OpCode
  op_multu : OpCode
  op_nor : OpCode
  op_or : OpCode
  op_ori : OpCode
  op_rfe : OpCode
  op_sb : OpCode
  op_sh : OpCode
  op_sll : OpCode
  op_sllv : OpCode
  op_slt : OpCode
  op_slti : OpCode
  op_sltiu : OpCode
  op_sltu : OpCode
  op_sra : OpCode
  op_srav : OpCode
  op_srl : OpCode
  op_srlv : OpCode
  op_sub : OpCode
  op_subu : OpCode
  op_sw : OpCode
  op_swl : OpCode
  op_swr : OpCode
  op_xor : OpCode
  op_xori : OpCode
  op_syscall : OpCode
  op_unimp : OpCode
  op_res : OpCode
  special : OpCode
  bcond : OpCode

pub data Format : Type 0 where
  ifmt : Format
  jfmt : Format
  rfmt : Format

pub record OpInfo : Type 0 where
  pub op_code : OpCode
  pub format : Format

-- A row of the table.
abbrev pub row : OpCode → Format → OpInfo
row c f = record { op_code = c; format = f }

unfoldable pub op_table : List OpInfo
op_table =
    row special rfmt
    ∷ row bcond ifmt
    ∷ row op_j jfmt
    ∷ row op_jal jfmt
    ∷ row op_beq ifmt
    ∷ row op_bne ifmt
    ∷ row op_blez ifmt
    ∷ row op_bgtz ifmt
    ∷ row op_addi ifmt
    ∷ row op_addiu ifmt
    ∷ row op_slti ifmt
    ∷ row op_sltiu ifmt
    ∷ row op_andi ifmt
    ∷ row op_ori ifmt
    ∷ row op_xori ifmt
    ∷ row op_lui ifmt
    ∷ row op_unimp ifmt
    ∷ row op_unimp ifmt
    ∷ row op_unimp ifmt
    ∷ row op_unimp ifmt
    ∷ row op_res ifmt
    ∷ row op_res ifmt
    ∷ row op_res ifmt
    ∷ row op_res ifmt
    ∷ row op_res ifmt
    ∷ row op_res ifmt
    ∷ row op_res ifmt
    ∷ row op_res ifmt
    ∷ row op_res ifmt
    ∷ row op_res ifmt
    ∷ row op_res ifmt
    ∷ row op_res ifmt
    ∷ row op_lb ifmt
    ∷ row op_lh ifmt
    ∷ row op_lwl ifmt
    ∷ row op_lw ifmt
    ∷ row op_lbu ifmt
    ∷ row op_lhu ifmt
    ∷ row op_lwr ifmt
    ∷ row op_res ifmt
    ∷ row op_sb ifmt
    ∷ row op_sh ifmt
    ∷ row op_swl ifmt
    ∷ row op_sw ifmt
    ∷ row op_res ifmt
    ∷ row op_res ifmt
    ∷ row op_swr ifmt
    ∷ row op_res ifmt
    ∷ row op_unimp ifmt
    ∷ row op_unimp ifmt
    ∷ row op_unimp ifmt
    ∷ row op_unimp ifmt
    ∷ row op_res ifmt
    ∷ row op_res ifmt
    ∷ row op_res ifmt
    ∷ row op_res ifmt
    ∷ row op_unimp ifmt
    ∷ row op_unimp ifmt
    ∷ row op_unimp ifmt
    ∷ row op_unimp ifmt
    ∷ row op_res ifmt
    ∷ row op_res ifmt
    ∷ row op_res ifmt
    ∷ row op_res ifmt
    ∷ []

unfoldable pub special_table : List OpCode
special_table =
    op_sll ∷ op_res ∷ op_srl ∷ op_sra ∷ op_sllv ∷ op_res ∷ op_srlv ∷ op_srav ∷ op_jr ∷ op_jalr
    ∷ op_res ∷ op_res ∷ op_syscall ∷ op_unimp ∷ op_res ∷ op_res ∷ op_mfhi ∷ op_mthi ∷ op_mflo
    ∷ op_mtlo ∷ op_res ∷ op_res ∷ op_res ∷ op_res ∷ op_mult ∷ op_multu ∷ op_div ∷ op_divu ∷ op_res
    ∷ op_res ∷ op_res ∷ op_res ∷ op_add ∷ op_addu ∷ op_sub ∷ op_subu ∷ op_and ∷ op_or ∷ op_xor
    ∷ op_nor ∷ op_res ∷ op_res ∷ op_slt ∷ op_sltu ∷ op_res ∷ op_res ∷ op_res ∷ op_res ∷ op_res
    ∷ op_res ∷ op_res ∷ op_res ∷ op_res ∷ op_res ∷ op_res ∷ op_res ∷ op_res ∷ op_res ∷ op_res
    ∷ op_res ∷ op_res ∷ op_res ∷ op_res ∷ op_res ∷ []
