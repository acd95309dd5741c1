-- ===== src/Execution/Safety.antt =====
-- No instruction makes the simulator leave its registers, and register 0 stays 0.
use nach_osx.MipsSim.Decoding.{decode}
use nach_osx.MipsSim.Executable.{decode-executable}
use nach_osx.Execution.{
  pc_reg, next_pc_reg, prev_pc_reg, Cpu, Kernel, Effect, done, returned, reg, put, execute, advance,
  one_instruction,
}
use nach_osx.MipsSim.Operators.{plus}
use nach_osx.Prelude.{inr, refl, ok, ◌>>=◌, ℕ, Option, none, some, arith}
use nach_osx.Execution.Registers.{
  Safe, Safe-bind, IsCpu, KernelLaws, Good, delayed_load_lem, put_counter,
}
use nach_osx.Execution.Cases.{execute_lem}

module _ {S : Type 0} (Rest : S → Type 0) where
  advance_lem : (e : Effect S) → Good Rest e → Safe (IsCpu Rest) (advance e)
  unfolding advance
  advance_lem (returned c) v = v
  advance_lem (done r value pc c) (h, w) =
      let (c₁, e₁, v₁) = delayed_load_lem Rest c r value w h in
      rw e₁ (
        Safe-bind (IsCpu Rest) (IsCpu Rest) (put c₁ prev_pc_reg (reg c₁ pc_reg)) _
          (put_counter Rest c₁ 36 _ v₁ (omega arith) (omega arith))
          (λ c₂ v₂.
            Safe-bind (IsCpu Rest) (IsCpu Rest) (put c₂ pc_reg (reg c₂ next_pc_reg)) _
              (put_counter Rest c₂ 34 _ v₂ (omega arith) (omega arith))
              (λ c₃ v₃. put_counter Rest c₃ 35 pc v₃ (omega arith) (omega arith))))

  -- One instruction, whatever the word at the program counter: no register outside the table is read or
  -- written, and if the machine is not stopped, register 0 is 0 again and the load under way is for one
  -- of the 32 registers. The rest of the machine has to keep to the same.
  pub one_instruction-IsCpu :
      (k : Kernel S) (c : Cpu S)
      → KernelLaws Rest k
      → IsCpu Rest c
      → Safe (IsCpu Rest) (one_instruction k c)
  unfolding one_instruction
  one_instruction-IsCpu k c laws v =
      Safe-bind (λ r. IsCpu Rest r.1) (IsCpu Rest) (k.read_mem c (reg c pc_reg) 4) _
        (laws.reads c _ 4 v (inr (inr refl))) fetched
    where
      fetched :
          (x : Option ℕ × Cpu S)
          → IsCpu Rest x.1
          → Safe (IsCpu Rest) (elim x.0 [
            | none ↦ ok x.1
            | some value ↦
                execute k (decode value).op_code (decode value) x.1 (plus (reg x.1 next_pc_reg) 4)
                >>= (λ e. advance e)
          ])
      fetched (none, c') v' = v'
      fetched (some value, c') v' =
          let (_, s, t, d) = decode-executable value in
          Safe-bind (Good Rest) (IsCpu Rest) (execute k (decode value).op_code (decode value) c' _)
            _ (execute_lem Rest k laws (decode value) s t d (decode value).op_code c' _ v')
            advance_lem
