-- ===== src/UserState.antt =====
-- The registers of a user program: Thread::SaveUserState and RestoreUserState of threads/thread.cc,
-- AddrSpace::InitRegisters of userprog/addrspace.cc and returnFromSystemCall of userprog/exception.cc.
pub mod Registers
pub mod Returns
use nach_osx.Prelude.{
  replicate, Outcome, ok, ◌>>=◌, ◌>>◌, ℕ, zero, suc, ◌+◌, ◌-◌, ◌*◌, ◌%◌, List, [], ◌∷◌,
}
use nach_osx.Words.{word_size}
use nach_osx.Translate.{page_size}
use nach_osx.MipsSim.Operators.{plus}
use nach_osx.Execution.{
  pc_reg, next_pc_reg, prev_pc_reg, num_total_regs, Cpu, read_register, write_register,
}

abbrev pub stack_reg : ℕ
stack_reg = 29

module _ {S : Type 0} where
  pub save_loop : ℕ → ℕ → Cpu S → Outcome (List ℕ)
  save_loop zero i c = ok []
  save_loop (suc n) i c = do
    value ← read_register c i
    rest ← save_loop n (i + 1) c
    ok (value ∷ rest)

  -- userRegisters after the call.
  pub save_user_state : Cpu S → Outcome (List ℕ)
  save_user_state c = save_loop num_total_regs 0 c

  pub restore_loop : ℕ → List ℕ → Cpu S → Outcome (Cpu S)
  restore_loop i [] c = ok c
  restore_loop i (value ∷ values) c = do
    c' ← write_register c i value
    restore_loop (i + 1) values c'

  pub restore_user_state : List ℕ → Cpu S → Outcome (Cpu S)
  restore_user_state user_registers c = restore_loop 0 user_registers c

  pub init_registers : ℕ → Cpu S → Outcome (Cpu S)
  init_registers num_pages c = do
    c₁ ← restore_loop 0 (replicate num_total_regs 0) c
    c₂ ← write_register c₁ pc_reg 0
    c₃ ← write_register c₂ next_pc_reg 4
    write_register c₃ stack_reg ((num_pages * page_size + (word_size - 16)) % word_size)

  unfoldable pub return_from_system_call : Cpu S → Outcome (Cpu S)
  return_from_system_call c = do
    pc ← read_register c pc_reg
    c₁ ← write_register c prev_pc_reg pc
    next ← read_register c₁ next_pc_reg
    c₂ ← write_register c₁ pc_reg next
    after ← read_register c₂ next_pc_reg
    write_register c₂ next_pc_reg (plus after 4)
