-- ===== src/UserState/Returns.antt =====
-- What returnFromSystemCall does to the registers.
use nach_osx.Prelude.{
  lt→ltb, length, get_or, set, length-set, get_or-set_self, get_or-set_ne, ok, ℕ, ◌<◌, ◌≡◌, refl,
  sym, ap, ◌∙◌, ◌≢◌, arith,
}
use nach_osx.MipsSim.Operators.{plus}
use nach_osx.Execution.{
  pc_reg, next_pc_reg, prev_pc_reg, num_total_regs, Cpu, reg, read_register, write_register,
}
use nach_osx.Execution.Registers.{put_ok}
use nach_osx.UserState.{return_from_system_call}

module _ {S : Type 0} where
  -- The program counter has gone on by one instruction; no other register but the previous program
  -- counter has changed.
  pub record Returned (c c' : Cpu S) : Type 0 where
    pub size : length c'.registers ≡ num_total_regs
    pub rest : c'.rest ≡ c.rest
    pub prev_pc : reg c' prev_pc_reg ≡ reg c pc_reg
    pub pc : reg c' pc_reg ≡ reg c next_pc_reg
    pub next_pc : reg c' next_pc_reg ≡ plus (reg c next_pc_reg) 4
    pub others : (i : ℕ) → i ≢ prev_pc_reg → i ≢ pc_reg → i ≢ next_pc_reg → reg c' i ≡ reg c i

  pub write_register_lem :
      (c : Cpu S) (i v : ℕ)
      → length c.registers ≡ num_total_regs
      → i < num_total_regs
      → write_register c i v ≡ ok (record c { registers = set c.registers i v })
  unfolding write_register
  write_register_lem c i v size lt = rw (lt→ltb i num_total_regs lt) (put_ok c i v size lt)

  pub return_from_system_call-Returned :
      (c : Cpu S)
      → length c.registers ≡ num_total_regs
      → (c' : Cpu S) × (return_from_system_call c ≡ ok c') × Returned c c'
  unfolding return_from_system_call read_register
  return_from_system_call-Returned c size =
      let r₀ = c.registers in
      let r₁ = set r₀ 36 (reg c 34) in
      let r₂ = set r₁ 34 (get_or r₁ 35 0) in
      let v = plus (get_or r₂ 35 0) 4 in
      let n₁ = length-set r₀ 36 (reg c 34) ∙ size in
      let n₂ = length-set r₁ 34 (get_or r₁ 35 0) ∙ n₁ in
      let a : get_or r₁ 35 0 ≡ get_or r₀ 35 0 =
        get_or-set_ne r₀ 36 35 (reg c 34) 0 (λ e. absurd (omega arith)) in
      let b : get_or r₂ 35 0 ≡ get_or r₁ 35 0 =
        get_or-set_ne r₁ 34 35 (get_or r₁ 35 0) 0 (λ e. absurd (omega arith)) in
      (
        record c { registers = set r₂ 35 v },
        rw
            (
              write_register_lem c 36 (reg c 34) size (omega arith),
              write_register_lem (record c { registers = r₁ }) 34 (get_or r₁ 35 0) n₁ (omega arith),
              write_register_lem (record c { registers = r₂ }) 35 v n₂ (omega arith),
            )
            refl,
        record {
          size = length-set r₂ 35 v ∙ n₂;
          rest = refl;
          prev_pc =
              get_or-set_ne r₂ 35 36 v 0 (λ e. absurd (omega arith))
              ∙ (get_or-set_ne r₁ 34 36 (get_or r₁ 35 0) 0 (λ e. absurd (omega arith))
                  ∙ get_or-set_self r₀ 36 (reg c 34) 0 (omega (arith, size)));
          pc =
              get_or-set_ne r₂ 35 34 v 0 (λ e. absurd (omega arith))
              ∙ (get_or-set_self r₁ 34 (get_or r₁ 35 0) 0 (omega (arith, n₁)) ∙ a);
          next_pc = get_or-set_self r₂ 35 v 0 (omega (arith, n₂)) ∙ ap (λ w. plus w 4) (b ∙ a);
          others = λ i p q r.
              get_or-set_ne r₂ 35 i v 0 (λ e. r (sym e))
              ∙ (get_or-set_ne r₁ 34 i (get_or r₁ 35 0) 0 (λ e. q (sym e))
                  ∙ get_or-set_ne r₀ 36 i (reg c 34) 0 (λ e. p (sym e)));
        },
      )
