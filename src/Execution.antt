-- ===== src/Execution.antt =====
-- `Machine::OneInstruction` and `Machine::DelayedLoad` of machine/mipssim.cc, over the registers of
-- machine/machine.h. The accesses to memory and the trap into the kernel are an interface: what stands
-- behind ReadMem, WriteMem and RaiseException is an argument.
pub mod Registers
pub mod Cases
pub mod Safety
pub mod Results
use Prim.Native.Nat.{bit_and, bit_or, bit_xor}
use nach_osx.Words.{word_size, sign_bit, is_negative, negate}
use nach_osx.MipsSim.{mult}
use nach_osx.MipsSim.OpCodes.{
  OpCode, op_add, op_addi, op_addiu, op_addu, op_and, op_andi, op_beq, op_bgez, op_bgezal, op_bgtz,
  op_blez, op_bltz, op_bltzal, op_bne, op_div, op_divu, op_j, op_jal, op_jalr, op_jr, op_lb, op_lbu,
  op_lh, op_lhu, op_lui, op_lw, op_lwl, op_lwr, op_mfhi, op_mflo, op_mthi, op_mtlo, op_mult,
  op_multu, op_nor, op_or, op_ori, op_rfe, op_sb, op_sh, op_sll, op_sllv, op_slt, op_slti, op_sltiu,
  op_sltu, op_sra, op_srav, op_srl, op_srlv, op_sub, op_subu, op_sw, op_swl, op_swr, op_xor,
  op_xori, op_syscall, op_unimp, op_res, special, bcond,
}
use nach_osx.MipsSim.Decoding.{Instruction, decode}
use nach_osx.MipsSim.Operators.{
  plus, minus, shift_left, shift_right, bit_not, less, has_sign, one_or_zero, absolute, quotient,
  remainder, register_result, immediate_result, branch_taken, merge_left, merge_right, spread_left,
  spread_right, loaded,
}
use nach_osx.Translate.{
  ExceptionType, syscall_exception, address_error_exception, overflow_exception,
  illegal_instr_exception,
}
use nach_osx.Prelude.{
  ltb, ◌==◌, if◌then◌else◌, length, get_or, set, Outcome, ok, abort, ◌>>=◌, ◌>>◌, check, bounds, ℕ,
  ◌/◌, ◌%◌, Bool, true, false, not, ◌&&◌, Option, none, some, List,
}

-- machine/machine.h
abbrev pub hi_reg : ℕ
hi_reg = 32

abbrev pub lo_reg : ℕ
lo_reg = 33

abbrev pub pc_reg : ℕ
pc_reg = 34

abbrev pub next_pc_reg : ℕ
next_pc_reg = 35

abbrev pub prev_pc_reg : ℕ
prev_pc_reg = 36

abbrev pub load_reg : ℕ
load_reg = 37

abbrev pub load_value_reg : ℕ
load_value_reg = 38

abbrev pub num_total_regs : ℕ
num_total_regs = 40

abbrev pub ret_addr_reg : ℕ
ret_addr_reg = 31

-- The registers, and all else that the kernel and the machine keep.
pub record Cpu (S : Type 0) : Type 0 where
  pub registers : List ℕ
  pub rest : S

-- ReadMem gives the value or false, WriteMem true or false.
pub record Kernel (S : Type 0) : Type 0 where
  pub read_mem : Cpu S → ℕ → ℕ → Outcome (Option ℕ × Cpu S)
  pub write_mem : Cpu S → ℕ → ℕ → ℕ → Outcome (Bool × Cpu S)
  pub raise_exception : ExceptionType → ℕ → Cpu S → Outcome (Cpu S)

-- How the switch is left: by break, with nextLoadReg, nextLoadValue and pcAfter, or by return.
pub data Effect (S : Type 0) : Type 0 where
  done : ℕ → ℕ → ℕ → Cpu S → Effect S
  returned : Cpu S → Effect S

module _ {S : Type 0} where
  -- registers[i]; every index in use is a constant, a field of five bits, or checked by `put`.
  abbrev pub reg : Cpu S → ℕ → ℕ
  reg c i = get_or c.registers i 0

  unfoldable pub put : Cpu S → ℕ → ℕ → Outcome (Cpu S)
  put c i v = do
    bounds (ltb i (length c.registers))
    ok (record c { registers = set c.registers i v })

  -- ReadRegister and WriteRegister, for a number that is not negative.
  unfoldable pub read_register : Cpu S → ℕ → Outcome ℕ
  read_register c num = do check (ltb num num_total_regs); ok (reg c num)

  unfoldable pub write_register : Cpu S → ℕ → ℕ → Outcome (Cpu S)
  unfolding put
  write_register c num value = do check (ltb num num_total_regs); put c num value

  pub delayed_load : Cpu S → ℕ → ℕ → Outcome (Cpu S)
  unfolding put
  delayed_load c next_reg next_value = do
    c₁ ← put c (reg c load_reg) (reg c load_value_reg)
    c₂ ← put c₁ load_reg next_reg
    c₃ ← put c₂ load_value_reg next_value
    put c₃ 0 0

  -- A case that writes one register and ends with break.
  pub finish_with : Cpu S → ℕ → ℕ → ℕ → Outcome (Effect S)
  unfolding put
  finish_with c i v pc_after = do c' ← put c i v; ok (done 0 0 pc_after c')

  -- RaiseException and return.
  pub trap : Kernel S → ExceptionType → ℕ → Cpu S → Outcome (Effect S)
  trap k e address c = do c' ← k.raise_exception e address c; ok (returned c')

  abbrev pub branch_to : Instruction → Cpu S → ℕ
  branch_to ins c = plus (reg c next_pc_reg) (shift_left ins.extra 2)

  pub branch : Instruction → Cpu S → ℕ → Outcome (Effect S)
  unfolding branch_taken
  branch ins c pc_after = ok (
      done 0 0
        (if branch_taken ins.op_code (reg c ins.rs) (reg c ins.rt)
          then branch_to ins c
          else pc_after)
        c)

  -- registers[R31] = registers[NextPCReg] + 4 and the case behind it
  pub link : Cpu S → ℕ → Outcome (Cpu S)
  unfolding put
  link c i = put c i (plus (reg c next_pc_reg) 4)

  pub jump : Instruction → Cpu S → ℕ → Outcome (Effect S)
  jump ins c pc_after =
      ok (done 0 0 (bit_or (bit_and pc_after 0xf000_0000) (shift_left ins.extra 2)) c)

  -- LB, LBU, LH, LHU and LW: an address of the wrong alignment is refused before ReadMem.
  pub load : Kernel S → Instruction → Cpu S → ℕ → ℕ → ℕ → Outcome (Effect S)
  unfolding loaded trap
  load k ins c size mask pc_after =
      let address = plus (reg c ins.rs) ins.extra in
      if not (bit_and address mask == 0) then trap k address_error_exception address c else do
        (value, c') ← k.read_mem c address size
        elim value [
          | none ↦ ok (returned c')
          | some v ↦ ok (done ins.rt (loaded ins.op_code v) pc_after c')
        ]

  -- The value that a load which is still under way, or else the register, has for rt.
  abbrev pub pending : Cpu S → ℕ → ℕ
  pending c rt = if reg c load_reg == rt then reg c load_value_reg else reg c rt

  -- LWL and LWR
  pub load_part : (ℕ → ℕ → ℕ → ℕ) → Kernel S → Instruction → Cpu S → ℕ → Outcome (Effect S)
  load_part merge k ins c pc_after = do
    let address = plus (reg c ins.rs) ins.extra
    check (bit_and address 3 == 0)
    (value, c') ← k.read_mem c address 4
    elim value [
      | none ↦ ok (returned c')
      | some v ↦ ok (done ins.rt (merge (bit_and address 3) (pending c' ins.rt) v) pc_after c')
    ]

  -- SB, SH and SW
  pub store : Kernel S → Instruction → Cpu S → ℕ → ℕ → Outcome (Effect S)
  store k ins c size pc_after = do
    (written, c') ← k.write_mem c (plus (reg c ins.rs) ins.extra) size (reg c ins.rt)
    ok (if written then done 0 0 pc_after c' else returned c')

  pub write_word : Kernel S → Cpu S → ℕ → ℕ → ℕ → Outcome (Effect S)
  write_word k c address value pc_after = do
    (written, c') ← k.write_mem c address 4 value
    ok (if written then done 0 0 pc_after c' else returned c')

  -- SWL and SWR
  pub store_part : (ℕ → ℕ → ℕ → ℕ) → Kernel S → Instruction → Cpu S → ℕ → Outcome (Effect S)
  unfolding write_word
  store_part spread k ins c pc_after = do
    let address = plus (reg c ins.rs) ins.extra
    check (bit_and address 3 == 0)
    (value, c') ← k.read_mem c address 4
    elim value [
      | none ↦ ok (returned c')
      | some v ↦ write_word k c' address (spread (bit_and address 3) v (reg c' ins.rt)) pc_after
    ]

  pub put_pair : Cpu S → ℕ → ℕ → ℕ → Outcome (Effect S)
  unfolding put
  put_pair c hi lo pc_after = do
    c₁ ← put c hi_reg hi
    c₂ ← put c₁ lo_reg lo
    ok (done 0 0 pc_after c₂)

  -- The host stops at the one quotient that an int does not hold.
  pub divide : Instruction → Cpu S → ℕ → Outcome (Effect S)
  unfolding put_pair
  divide ins c pc_after =
      let a = reg c ins.rs in
      let b = reg c ins.rt in
      if b == 0 then put_pair c 0 0 pc_after else do
        check (not ((a == sign_bit) && (b == 0xffff_ffff)))
        put_pair c (remainder a b) (quotient a b) pc_after

  pub divide_unsigned : Instruction → Cpu S → ℕ → Outcome (Effect S)
  unfolding put_pair
  divide_unsigned ins c pc_after =
      let a = reg c ins.rs in
      let b = reg c ins.rt in
      if b == 0 then put_pair c 0 0 pc_after else put_pair c (a % b) (a / b) pc_after

  -- ADD and ADDI: the sum of two words of one sign that has the other sign is an overflow.
  pub add_checked : Kernel S → ℕ → ℕ → ℕ → Cpu S → ℕ → Outcome (Effect S)
  unfolding trap finish_with
  add_checked k target a b c pc_after =
      if not (has_sign (bit_xor a b)) && has_sign (bit_xor b (plus a b))
      then trap k overflow_exception 0 c
      else finish_with c target (plus a b) pc_after

  pub subtract_checked : Kernel S → Instruction → Cpu S → ℕ → Outcome (Effect S)
  unfolding trap finish_with
  subtract_checked k ins c pc_after =
      let a = reg c ins.rs in
      let b = reg c ins.rt in
      if has_sign (bit_xor a b) && has_sign (bit_xor a (minus a b))
      then trap k overflow_exception 0 c
      else finish_with c ins.rd (minus a b) pc_after

  -- The cases that only compute, and the default.
  pub write_result : Option ℕ → Option ℕ → Instruction → Cpu S → ℕ → Outcome (Effect S)
  unfolding finish_with
  write_result (some v) other ins c pc_after = finish_with c ins.rd v pc_after
  write_result none (some v) ins c pc_after = finish_with c ins.rt v pc_after
  write_result none none ins c pc_after = abort

  pub compute : Instruction → Cpu S → ℕ → Outcome (Effect S)
  unfolding write_result
  compute ins c pc_after =
      write_result (register_result ins.op_code (reg c ins.rs) (reg c ins.rt) ins.extra)
        (immediate_result ins.op_code (reg c ins.rs) ins.extra) ins c pc_after

  -- The switch.
  pub execute : Kernel S → OpCode → Instruction → Cpu S → ℕ → Outcome (Effect S)
  unfolding add_checked subtract_checked branch link jump load load_part store store_part divide
      divide_unsigned put_pair finish_with trap compute
  execute k op_add ins c pc_after = add_checked k ins.rd (reg c ins.rt) (reg c ins.rs) c pc_after
  execute k op_addi ins c pc_after = add_checked k ins.rt (reg c ins.rs) ins.extra c pc_after
  execute k op_sub ins c pc_after = subtract_checked k ins c pc_after
  execute k op_beq ins c pc_after = branch ins c pc_after
  execute k op_bgezal ins c pc_after = do c' ← link c ret_addr_reg; branch ins c' pc_after
  execute k op_bgez ins c pc_after = branch ins c pc_after
  execute k op_bgtz ins c pc_after = branch ins c pc_after
  execute k op_blez ins c pc_after = branch ins c pc_after
  execute k op_bltzal ins c pc_after = do c' ← link c ret_addr_reg; branch ins c' pc_after
  execute k op_bltz ins c pc_after = branch ins c pc_after
  execute k op_bne ins c pc_after = branch ins c pc_after
  execute k op_div ins c pc_after = divide ins c pc_after
  execute k op_divu ins c pc_after = divide_unsigned ins c pc_after
  execute k op_jal ins c pc_after = do c' ← link c ret_addr_reg; jump ins c' pc_after
  execute k op_j ins c pc_after = jump ins c pc_after
  execute k op_jalr ins c pc_after = do c' ← link c ins.rd; ok (done 0 0 (reg c' ins.rs) c')
  execute k op_jr ins c pc_after = ok (done 0 0 (reg c ins.rs) c)
  execute k op_lb ins c pc_after = load k ins c 1 0 pc_after
  execute k op_lbu ins c pc_after = load k ins c 1 0 pc_after
  execute k op_lh ins c pc_after = load k ins c 2 1 pc_after
  execute k op_lhu ins c pc_after = load k ins c 2 1 pc_after
  execute k op_lw ins c pc_after = load k ins c 4 3 pc_after
  execute k op_lwl ins c pc_after = load_part merge_left k ins c pc_after
  execute k op_lwr ins c pc_after = load_part merge_right k ins c pc_after
  execute k op_mfhi ins c pc_after = finish_with c ins.rd (reg c hi_reg) pc_after
  execute k op_mflo ins c pc_after = finish_with c ins.rd (reg c lo_reg) pc_after
  execute k op_mthi ins c pc_after = finish_with c hi_reg (reg c ins.rs) pc_after
  execute k op_mtlo ins c pc_after = finish_with c lo_reg (reg c ins.rs) pc_after
  execute k op_mult ins c pc_after =
      let (hi, lo) = mult (reg c ins.rs) (reg c ins.rt) true in put_pair c hi lo pc_after
  execute k op_multu ins c pc_after =
      let (hi, lo) = mult (reg c ins.rs) (reg c ins.rt) false in put_pair c hi lo pc_after
  execute k op_sb ins c pc_after = store k ins c 1 pc_after
  execute k op_sh ins c pc_after = store k ins c 2 pc_after
  execute k op_sw ins c pc_after = store k ins c 4 pc_after
  execute k op_swl ins c pc_after = store_part spread_left k ins c pc_after
  execute k op_swr ins c pc_after = store_part spread_right k ins c pc_after
  execute k op_syscall ins c pc_after = trap k syscall_exception 0 c
  execute k op_res ins c pc_after = trap k illegal_instr_exception 0 c
  execute k op_unimp ins c pc_after = trap k illegal_instr_exception 0 c
  execute k code ins c pc_after = compute ins c pc_after

  -- The delayed load and the program counters.
  pub advance : Effect S → Outcome (Cpu S)
  unfolding delayed_load put
  advance (returned c) = ok c
  advance (done next_reg next_value pc_after c) = do
    c₁ ← delayed_load c next_reg next_value
    c₂ ← put c₁ prev_pc_reg (reg c₁ pc_reg)
    c₃ ← put c₂ pc_reg (reg c₂ next_pc_reg)
    put c₃ next_pc_reg pc_after

  pub one_instruction : Kernel S → Cpu S → Outcome (Cpu S)
  unfolding execute advance
  one_instruction k c = do
    (raw, c') ← k.read_mem c (reg c pc_reg) 4
    elim raw [
      | none ↦ ok c'
      | some value ↦ (do
        let ins = decode value
        effect ← execute k ins.op_code ins c' (plus (reg c' next_pc_reg) 4)
        advance effect)
    ]
