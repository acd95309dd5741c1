-- ===== src/Execution/Cases.antt =====
-- Each case of the switch of `OneInstruction` keeps the registers as they should be.
use Prim.Native.Nat.{bit_and}
use nach_osx.MipsSim.OpCodes.{
  OpCode, op_add, op_addi, op_beq, op_bgez, op_bgezal, op_bgtz, op_blez, op_bltz, op_bltzal, op_bne,
  op_div, op_divu, op_j, op_jal, op_jalr, op_jr, op_lb, op_lbu, op_lh, op_lhu, op_lw, op_lwl,
  op_lwr, op_mfhi, op_mflo, op_mthi, op_mtlo, op_mult, op_multu, op_sb, op_sh, op_sub, op_sw,
  op_swl, op_swr, op_syscall, op_unimp, op_res,
}
use nach_osx.MipsSim.Decoding.{Instruction}
use nach_osx.Translate.{
  ExceptionType, syscall_exception, address_error_exception, overflow_exception,
  illegal_instr_exception,
}
use nach_osx.Execution.{
  hi_reg, lo_reg, ret_addr_reg, Cpu, Kernel, done, returned, reg, trap, branch, link, jump, load,
  load_part, store, store_part, write_word, divide, divide_unsigned, add_checked, subtract_checked,
  write_result, compute, execute, pending,
}
use nach_osx.MipsSim.Operators.{plus, merge_left, merge_right, spread_left, spread_right, loaded}
use nach_osx.Prelude.{
  ◌⊎◌, ◌≡◌, refl, ◌==◌, if◌then◌else◌, Bool-cases, ok, ℕ, ◌<◌, inl, inr, Bool, true, false, ◌&&◌,
  Option, none, some, arith,
}
use nach_osx.Execution.Registers.{
  Safe, Safe-bind, IsCpu, IsRunning, KernelLaws, Good, if_lem, running, put_lem, finish_with_lem,
  put_pair_lem,
}

module _ {S : Type 0} (Rest : S → Type 0) where
  module _ (k : Kernel S) (laws : KernelLaws Rest k) where
    trap_lem :
        (e : ExceptionType) (address : ℕ) (c : Cpu S)
        → IsCpu Rest c
        → Safe (Good Rest) (trap k e address c)
    unfolding trap
    trap_lem e address c v =
        Safe-bind (IsCpu Rest) (Good Rest) (k.raise_exception e address c) _
          (laws.raises e address c v) (λ c' v'. v')

    module _ (ins : Instruction) (rs_field : ins.rs < 32) (rt_field : ins.rt < 32)
        (rd_field : ins.rd < 32) where
      branch_lem : (c : Cpu S) (pc : ℕ) → IsRunning Rest c → Safe (Good Rest) (branch ins c pc)
      unfolding branch
      branch_lem c pc w = (omega arith, w)

      jump_lem : (c : Cpu S) (pc : ℕ) → IsRunning Rest c → Safe (Good Rest) (jump ins c pc)
      unfolding jump
      jump_lem c pc w = (omega arith, w)

      link_lem : (c : Cpu S) (i : ℕ) → IsRunning Rest c → i < 32 → Safe (IsRunning Rest) (link c i)
      unfolding link
      link_lem c i w h = put_lem Rest c i _ w (omega arith)

      load_lem :
          (c : Cpu S) (size mask pc : ℕ)
          → (size ≡ 1) ⊎ ((size ≡ 2) ⊎ (size ≡ 4))
          → IsCpu Rest c
          → Safe (Good Rest) (load k ins c size mask pc)
      unfolding load
      load_lem c size mask pc sizes v =
          elim (Bool-cases (bit_and (plus (reg c ins.rs) ins.extra) mask == 0)) [
            | inl aligned ↦ rw aligned (
                Safe-bind (λ r. IsCpu Rest r.1) (Good Rest)
                  (k.read_mem c (plus (reg c ins.rs) ins.extra) size) _
                  (laws.reads c _ size v sizes) read)
            | inr off ↦ rw off (trap_lem address_error_exception _ c v)
          ]
        where
          read :
              (x : Option ℕ × Cpu S)
              → IsCpu Rest x.1
              → Safe (Good Rest) (elim x.0 [
                | none ↦ ok (returned x.1)
                | some v ↦ ok (done ins.rt (loaded ins.op_code v) pc x.1)
              ])
          read (none, c') v' = v'
          read (some value, c') v' = (rt_field, running Rest c' v')

      load_part_lem :
          (merge : ℕ → ℕ → ℕ → ℕ) (c : Cpu S) (pc : ℕ)
          → IsCpu Rest c
          → Safe (Good Rest) (load_part merge k ins c pc)
      unfolding load_part
      load_part_lem merge c pc v =
          elim (Bool-cases (bit_and (plus (reg c ins.rs) ins.extra) 3 == 0)) [
            | inl aligned ↦ rw aligned (
                Safe-bind (λ r. IsCpu Rest r.1) (Good Rest)
                  (k.read_mem c (plus (reg c ins.rs) ins.extra) 4) _
                  (laws.reads c _ 4 v (inr (inr refl))) read)
            | inr off ↦ rw off tt
          ]
        where
          read :
              (x : Option ℕ × Cpu S)
              → IsCpu Rest x.1
              → Safe (Good Rest) (elim x.0 [
                | none ↦ ok (returned x.1)
                | some v ↦ ok (
                    done ins.rt
                      (merge (bit_and (plus (reg c ins.rs) ins.extra) 3) (pending x.1 ins.rt) v)
                      pc
                      x.1)
              ])
          read (none, c') v' = v'
          read (some value, c') v' = (rt_field, running Rest c' v')

      after_write :
          (pc : ℕ) (x : Bool × Cpu S)
          → IsCpu Rest x.1
          → Safe (Good Rest) (ok (if x.0 then done 0 0 pc x.1 else returned x.1))
      after_write pc (true, c') v' = (omega arith, running Rest c' v')
      after_write pc (false, c') v' = v'

      store_lem :
          (c : Cpu S) (size pc : ℕ)
          → (size ≡ 1) ⊎ ((size ≡ 2) ⊎ (size ≡ 4))
          → IsCpu Rest c
          → Safe (Good Rest) (store k ins c size pc)
      unfolding store
      store_lem c size pc sizes v =
          Safe-bind (λ r. IsCpu Rest r.1) (Good Rest)
            (k.write_mem c (plus (reg c ins.rs) ins.extra) size (reg c ins.rt)) _
            (laws.writes c _ size _ v sizes) (after_write pc)

      write_word_lem :
          (c : Cpu S) (address value pc : ℕ)
          → IsCpu Rest c
          → Safe (Good Rest) (write_word k c address value pc)
      unfolding write_word
      write_word_lem c address value pc v =
          Safe-bind (λ r. IsCpu Rest r.1) (Good Rest) (k.write_mem c address 4 value) _
            (laws.writes c address 4 value v (inr (inr refl))) (after_write pc)

      store_part_lem :
          (spread : ℕ → ℕ → ℕ → ℕ) (c : Cpu S) (pc : ℕ)
          → IsCpu Rest c
          → Safe (Good Rest) (store_part spread k ins c pc)
      unfolding store_part
      store_part_lem spread c pc v =
          elim (Bool-cases (bit_and (plus (reg c ins.rs) ins.extra) 3 == 0)) [
            | inl aligned ↦ rw aligned (
                Safe-bind (λ r. IsCpu Rest r.1) (Good Rest)
                  (k.read_mem c (plus (reg c ins.rs) ins.extra) 4) _
                  (laws.reads c _ 4 v (inr (inr refl))) read)
            | inr off ↦ rw off tt
          ]
        where
          read :
              (x : Option ℕ × Cpu S)
              → IsCpu Rest x.1
              → Safe (Good Rest) (elim x.0 [
                | none ↦ ok (returned x.1)
                | some v ↦
                    write_word k x.1
                      (plus (reg c ins.rs) ins.extra)
                      (spread (bit_and (plus (reg c ins.rs) ins.extra) 3) v (reg x.1 ins.rt))
                      pc
              ])
          read (none, c') v' = v'
          read (some value, c') v' = write_word_lem c' _ _ pc v'

      divide_lem : (c : Cpu S) (pc : ℕ) → IsRunning Rest c → Safe (Good Rest) (divide ins c pc)
      unfolding divide
      divide_lem c pc w = elim (Bool-cases (reg c ins.rt == 0)) [
        | inl by_zero ↦ rw by_zero (put_pair_lem Rest c 0 0 pc w)
        | inr other ↦
            rw other
              (elim (Bool-cases ((reg c ins.rs == 0x8000_0000) && (reg c ins.rt == 0xffff_ffff))) [
                | inl over ↦ rw over tt
                | inr fits ↦ rw fits (put_pair_lem Rest c _ _ pc w)
              ])
      ]

      divide_unsigned_lem :
          (c : Cpu S) (pc : ℕ) → IsRunning Rest c → Safe (Good Rest) (divide_unsigned ins c pc)
      unfolding divide_unsigned
      divide_unsigned_lem c pc w = elim (Bool-cases (reg c ins.rt == 0)) [
        | inl by_zero ↦ rw by_zero (put_pair_lem Rest c 0 0 pc w)
        | inr other ↦ rw other (put_pair_lem Rest c _ _ pc w)
      ]

      add_checked_lem :
          (target a b : ℕ) (c : Cpu S) (pc : ℕ)
          → target < 32
          → IsCpu Rest c
          → Safe (Good Rest) (add_checked k target a b c pc)
      unfolding add_checked
      add_checked_lem target a b c pc h v =
          if_lem Rest _ _ _ (trap_lem overflow_exception 0 c v)
            (finish_with_lem Rest c target (plus a b) pc (running Rest c v) (omega arith))

      subtract_checked_lem :
          (c : Cpu S) (pc : ℕ) → IsCpu Rest c → Safe (Good Rest) (subtract_checked k ins c pc)
      unfolding subtract_checked
      subtract_checked_lem c pc v =
          if_lem Rest _ _ _ (trap_lem overflow_exception 0 c v)
            (finish_with_lem Rest c ins.rd _ pc (running Rest c v) (omega arith))

      write_result_lem :
          (x y : Option ℕ) (c : Cpu S) (pc : ℕ)
          → IsRunning Rest c
          → Safe (Good Rest) (write_result x y ins c pc)
      unfolding write_result
      write_result_lem (some v) y c pc w = finish_with_lem Rest c ins.rd v pc w (omega arith)
      write_result_lem none (some v) c pc w = finish_with_lem Rest c ins.rt v pc w (omega arith)
      write_result_lem none none c pc w = tt

      compute_lem : (c : Cpu S) (pc : ℕ) → IsRunning Rest c → Safe (Good Rest) (compute ins c pc)
      unfolding compute
      compute_lem c pc w = write_result_lem _ _ c pc w

      pub execute_lem :
          (code : OpCode) (c : Cpu S) (pc : ℕ)
          → IsCpu Rest c
          → Safe (Good Rest) (execute k code ins c pc)
      unfolding execute
      execute_lem op_add c pc v =
          add_checked_lem ins.rd (reg c ins.rt) (reg c ins.rs) c pc rd_field v
      execute_lem op_addi c pc v = add_checked_lem ins.rt (reg c ins.rs) ins.extra c pc rt_field v
      execute_lem op_sub c pc v = subtract_checked_lem c pc v
      execute_lem op_beq c pc v = branch_lem c pc (running Rest c v)
      execute_lem op_bgezal c pc v =
          Safe-bind (IsRunning Rest) (Good Rest) (link c ret_addr_reg) _
            (link_lem c 31 (running Rest c v) (omega arith)) (λ c' w. branch_lem c' pc w)
      execute_lem op_bgez c pc v = branch_lem c pc (running Rest c v)
      execute_lem op_bgtz c pc v = branch_lem c pc (running Rest c v)
      execute_lem op_blez c pc v = branch_lem c pc (running Rest c v)
      execute_lem op_bltzal c pc v =
          Safe-bind (IsRunning Rest) (Good Rest) (link c ret_addr_reg) _
            (link_lem c 31 (running Rest c v) (omega arith)) (λ c' w. branch_lem c' pc w)
      execute_lem op_bltz c pc v = branch_lem c pc (running Rest c v)
      execute_lem op_bne c pc v = branch_lem c pc (running Rest c v)
      execute_lem op_div c pc v = divide_lem c pc (running Rest c v)
      execute_lem op_divu c pc v = divide_unsigned_lem c pc (running Rest c v)
      execute_lem op_jal c pc v =
          Safe-bind (IsRunning Rest) (Good Rest) (link c ret_addr_reg) _
            (link_lem c 31 (running Rest c v) (omega arith)) (λ c' w. jump_lem c' pc w)
      execute_lem op_j c pc v = jump_lem c pc (running Rest c v)
      execute_lem op_jalr c pc v =
          Safe-bind (IsRunning Rest) (Good Rest) (link c ins.rd) _
            (link_lem c ins.rd (running Rest c v) rd_field) (λ c' w. (omega arith, w))
      execute_lem op_jr c pc v = (omega arith, running Rest c v)
      execute_lem op_lb c pc v = load_lem c 1 0 pc (inl refl) v
      execute_lem op_lbu c pc v = load_lem c 1 0 pc (inl refl) v
      execute_lem op_lh c pc v = load_lem c 2 1 pc (inr (inl refl)) v
      execute_lem op_lhu c pc v = load_lem c 2 1 pc (inr (inl refl)) v
      execute_lem op_lw c pc v = load_lem c 4 3 pc (inr (inr refl)) v
      execute_lem op_lwl c pc v = load_part_lem merge_left c pc v
      execute_lem op_lwr c pc v = load_part_lem merge_right c pc v
      execute_lem op_mfhi c pc v =
          finish_with_lem Rest c ins.rd _ pc (running Rest c v) (omega arith)
      execute_lem op_mflo c pc v =
          finish_with_lem Rest c ins.rd _ pc (running Rest c v) (omega arith)
      execute_lem op_mthi c pc v =
          finish_with_lem Rest c hi_reg _ pc (running Rest c v) (omega arith)
      execute_lem op_mtlo c pc v =
          finish_with_lem Rest c lo_reg _ pc (running Rest c v) (omega arith)
      execute_lem op_mult c pc v = put_pair_lem Rest c _ _ pc (running Rest c v)
      execute_lem op_multu c pc v = put_pair_lem Rest c _ _ pc (running Rest c v)
      execute_lem op_sb c pc v = store_lem c 1 pc (inl refl) v
      execute_lem op_sh c pc v = store_lem c 2 pc (inr (inl refl)) v
      execute_lem op_sw c pc v = store_lem c 4 pc (inr (inr refl)) v
      execute_lem op_swl c pc v = store_part_lem spread_left c pc v
      execute_lem op_swr c pc v = store_part_lem spread_right c pc v
      execute_lem op_syscall c pc v = trap_lem syscall_exception 0 c v
      execute_lem op_res c pc v = trap_lem illegal_instr_exception 0 c v
      execute_lem op_unimp c pc v = trap_lem illegal_instr_exception 0 c v
      execute_lem code c pc v = compute_lem c pc (running Rest c v)
