-- ===== src/Execution/Results.antt =====
-- The instructions that put a computed value into registers[rd].
use nach_osx.MipsSim.Decoding.{Instruction, decode}
use nach_osx.MipsSim.OpCodes.{
  OpCode, op_addu, op_and, op_nor, op_or, op_sll, op_sllv, op_slt, op_sltu, op_sra, op_srav, op_srl,
  op_srlv, op_subu, op_xor,
}
use nach_osx.MipsSim.Operators.{plus, register_result}
use nach_osx.Execution.{
  pc_reg, next_pc_reg, load_reg, load_value_reg, num_total_regs, Cpu, Kernel, done, reg, put,
  delayed_load, finish_with, write_result, compute, execute, advance, one_instruction,
}
use nach_osx.MipsSim.Meaning.{Means, computes, computes-register_result, register_result-Means}
use nach_osx.MipsSim.Executable.{decode-executable}
use nach_osx.Execution.Registers.{put_ok, written}
use nach_osx.Prelude.{
  ◌+◌, ◌%◌, ◌^◌, true, ◌==◌, if◌then◌else◌, ==_iff, Bool-cases, length, get_or, set, length-set,
  get_or-set_self, get_or-set_ne, ok, ℕ, ◌<◌, ◌≡◌, refl, ◌∙◌, subst, inl, inr, Option, none, some,
  arith,
}

module _ {S : Type 0} where
  -- The cases in question are those of `compute`.
  execute_register :
      (k : Kernel S) (code : OpCode) (ins : Instruction) (c : Cpu S) (pc v : ℕ) (a b x : ℕ)
      → register_result code a b x ≡ some v
      → execute k code ins c pc ≡ compute ins c pc
  unfolding execute register_result
  execute_register k op_addu ins c pc v a b x e = refl
  execute_register k op_and ins c pc v a b x e = refl
  execute_register k op_nor ins c pc v a b x e = refl
  execute_register k op_or ins c pc v a b x e = refl
  execute_register k op_sll ins c pc v a b x e = refl
  execute_register k op_sllv ins c pc v a b x e = refl
  execute_register k op_slt ins c pc v a b x e = refl
  execute_register k op_sltu ins c pc v a b x e = refl
  execute_register k op_sra ins c pc v a b x e = refl
  execute_register k op_srav ins c pc v a b x e = refl
  execute_register k op_srl ins c pc v a b x e = refl
  execute_register k op_srlv ins c pc v a b x e = refl
  execute_register k op_subu ins c pc v a b x e = refl
  execute_register k op_xor ins c pc v a b x e = refl
  execute_register k code ins c pc v a b x e = cc

  reg-written :
      (c : Cpu S) (i v j : ℕ)
      → i < length c.registers
      → reg (written c i v) j ≡ (if i == j then v else reg c j)
  unfolding written
  reg-written c i v j h = elim (Bool-cases (i == j)) [
    | inl same ↦ rw same (
        subst (λ n. get_or (set c.registers i v) n 0 ≡ v) ((==_iff i j).0 same)
          (get_or-set_self c.registers i v 0 h))
    | inr other ↦ rw other (get_or-set_ne c.registers i j v 0 (ground arith))
  ]

  put-written :
      (c : Cpu S) (i v : ℕ)
      → length c.registers ≡ num_total_regs
      → i < num_total_regs
      → put c i v ≡ ok (written c i v)
  unfolding written
  put-written = put_ok

  length-written :
      (c : Cpu S) (i v : ℕ)
      → length c.registers ≡ num_total_regs
      → length (written c i v).registers ≡ num_total_regs
  unfolding written
  length-written c i v size = length-set c.registers i v ∙ size

  -- What is left when a case has ended by break with a load of `value` for register `target` under way.
  pub record Advanced (c : Cpu S) (pc_after : ℕ) (c' : Cpu S) : Type 0 where
    pub size : length c'.registers ≡ num_total_regs
    pub zero_reg : reg c' 0 ≡ 0
    pub general :
        (j : ℕ)
        → 0 < j
        → j < 32
        → reg c' j ≡ (if reg c load_reg == j then reg c load_value_reg else reg c j)
    pub counter : reg c' pc_reg ≡ reg c next_pc_reg
    pub next_counter : reg c' next_pc_reg ≡ pc_after
    pub no_load : reg c' load_reg ≡ 0

  advance-Advanced :
      (c : Cpu S) (pc_after : ℕ)
      → length c.registers ≡ num_total_regs
      → reg c load_reg < 32
      → (c' : Cpu S) × (advance (done 0 0 pc_after c) ≡ ok c') × Advanced c pc_after c'
  unfolding advance delayed_load
  advance-Advanced c pc_after n₀ low =
      let c₁ = written c (reg c 37) (reg c 38) in
      let n₁ = length-written c (reg c 37) (reg c 38) n₀ in
      let c₂ = written c₁ 37 0 in
      let n₂ = length-written c₁ 37 0 n₁ in
      let c₃ = written c₂ 38 0 in
      let n₃ = length-written c₂ 38 0 n₂ in
      let c₄ = written c₃ 0 0 in
      let n₄ = length-written c₃ 0 0 n₃ in
      let c₅ = written c₄ 36 (reg c₄ 34) in
      let n₅ = length-written c₄ 36 (reg c₄ 34) n₄ in
      let c₆ = written c₅ 34 (reg c₅ 35) in
      let n₆ = length-written c₅ 34 (reg c₅ 35) n₅ in
      let at : (j : ℕ)
          → reg (written c₆ 35 pc_after) j ≡ (
              if 35 == j
              then pc_after
              else if 34 == j
              then reg c₅ 35
              else if 36 == j
              then reg c₄ 34
              else if 0 == j
              then 0
              else if 38 == j
              then 0
              else if 37 == j
              then 0
              else if reg c 37 == j
              then reg c 38
              else reg c j) =
        λ j.
          rw
            (
              reg-written c₆ 35 pc_after j (omega (arith, n₆)),
              reg-written c₅ 34 (reg c₅ 35) j (omega (arith, n₅)),
              reg-written c₄ 36 (reg c₄ 34) j (omega (arith, n₄)),
              reg-written c₃ 0 0 j (omega (arith, n₃)),
              reg-written c₂ 38 0 j (omega (arith, n₂)),
              reg-written c₁ 37 0 j (omega (arith, n₁)),
              reg-written c (reg c 37) (reg c 38) j (omega (arith, n₀)),
            )
            refl in
      let next_kept : reg c₅ 35 ≡ reg c 35 =
        reg-written c₄ 36 (reg c₄ 34) 35 (omega (arith, n₄))
        ∙ reg-written c₃ 0 0 35 (omega (arith, n₃))
        ∙ reg-written c₂ 38 0 35 (omega (arith, n₂))
        ∙ reg-written c₁ 37 0 35 (omega (arith, n₁))
        ∙ reg-written c (reg c 37) (reg c 38) 35 (omega (arith, n₀))
        ∙ ground (arith, low) in
      (
        written c₆ 35 pc_after,
        rw (
          put-written c (reg c 37) (reg c 38) n₀ (omega arith),
          put-written c₁ 37 0 n₁ (omega arith),
          put-written c₂ 38 0 n₂ (omega arith),
          put-written c₃ 0 0 n₃ (omega arith),
          put-written c₄ 36 (reg c₄ 34) n₄ (omega arith),
          put-written c₅ 34 (reg c₅ 35) n₅ (omega arith),
          put-written c₆ 35 pc_after n₆ (omega arith),
        ),
        record {
          size = length-written c₆ 35 pc_after n₆;
          zero_reg = at 0;
          general = λ j pos_j lt. ground (arith, at j);
          counter = at 34 ∙ next_kept;
          next_counter = at 35;
          no_load = at 37;
        },
      )

  finish_with_ok :
      (c : Cpu S) (i v pc : ℕ)
      → length c.registers ≡ num_total_regs
      → i < num_total_regs
      → finish_with c i v pc ≡ ok (done 0 0 pc (written c i v))
  unfolding finish_with
  finish_with_ok c i v pc size h = rw (put-written c i v size h)

  write_result_ok :
      (x y : Option ℕ) (ins : Instruction) (c : Cpu S) (pc v : ℕ)
      → x ≡ some v
      → write_result x y ins c pc ≡ finish_with c ins.rd v pc
  unfolding write_result
  write_result_ok (some w) y ins c pc v e = cc
  write_result_ok none y ins c pc v e = cc

  compute_register :
      (ins : Instruction) (c : Cpu S) (pc v : ℕ)
      → register_result ins.op_code (reg c ins.rs) (reg c ins.rt) ins.extra ≡ some v
      → compute ins c pc ≡ finish_with c ins.rd v pc
  unfolding compute
  compute_register ins c pc v e = write_result_ok _ _ ins c pc v e

  -- An instruction that puts a computed value into registers[rd], over registers that hold words, fetched
  -- without an exception: OneInstruction returns. registers[rd] is the value that the instruction is for (for
  -- OR, the value of registers[rs]; for SRL and SRLV, that of SRA and SRAV), unless a load for rd was under
  -- way; the load that was under way has arrived in its register, the other general registers are as before,
  -- register 0 is 0, the program counter is the one that was next, and the next one is 4 further.
  pub one_instruction-register :
      (k : Kernel S) (c : Cpu S) (rest : S) (raw : ℕ)
      → length c.registers ≡ num_total_regs
      → reg c load_reg < 32
      → ((j : ℕ) → reg c j < 2 ^ 32)
      → k.read_mem c (reg c pc_reg) 4 ≡ ok (some raw, record c { rest = rest })
      → computes (decode raw).op_code ≡ true
      → (v : ℕ) × (c' : Cpu S) × (one_instruction k c ≡ ok c')
        × Means
            (decode raw).op_code
            (reg c (decode raw).rs)
            (reg c (decode raw).rt)
            (decode raw).extra
            v
        × (reg c' 0 ≡ 0)
        × ((j : ℕ)
            → 0 < j
            → j < 32
            → reg c' j ≡ (
                if reg c load_reg == j
                then reg c load_value_reg
                else if (decode raw).rd == j
                then v
                else reg c j))
        × (reg c' pc_reg ≡ reg c next_pc_reg)
        × (reg c' next_pc_reg ≡ (reg c next_pc_reg + 4) % 2 ^ 32)
        × (reg c' load_reg ≡ 0)
  unfolding one_instruction
  one_instruction-register k c rest raw size low words fetched computed =
      let ins = decode raw in
      let rd_field = (decode-executable raw).3 in
      let c₁ : Cpu S = record c { rest = rest } in
      let pc_after = plus (reg c next_pc_reg) 4 in
      let (v, result) =
        computes-register_result ins.op_code (reg c ins.rs) (reg c ins.rt) ins.extra computed in
      let c₀ = written c₁ ins.rd v in
      let old : (j : ℕ) → reg c₀ j ≡ (if ins.rd == j then v else reg c j) =
        λ j. reg-written c₁ ins.rd v j (omega (arith, size)) in
      let target : reg c₀ load_reg ≡ reg c load_reg = ground (arith, old 37) in
      let loaded_value : reg c₀ load_value_reg ≡ reg c load_value_reg = ground (arith, old 38) in
      let next : reg c₀ next_pc_reg ≡ reg c next_pc_reg = ground (arith, old 35) in
      let (c', runs, end) =
        advance-Advanced c₀ pc_after (length-written c₁ ins.rd v size)
          (omega (arith, target, low)) in
      (
        v,
        c',
        rw
            (
              fetched,
              execute_register k ins.op_code ins c₁ pc_after v _ _ _ result,
              compute_register ins c₁ pc_after v result,
              finish_with_ok c₁ ins.rd v pc_after size (omega arith),
            )
            runs,
        register_result-Means ins.op_code (reg c ins.rs) (reg c ins.rt) ins.extra v (words ins.rs)
            (words ins.rt) result,
        end.zero_reg,
        λ j pos_j lt. rw (end.general j pos_j lt, target, loaded_value, old j) refl,
        end.counter ∙ next,
        end.next_counter,
        end.no_load,
      )
