-- ===== src/Execution/Registers.antt =====
-- What holds of the registers between two instructions and inside one, and the writes that keep it.
use nach_osx.Translate.{ExceptionType}
use nach_osx.Execution.{
  load_reg, load_value_reg, num_total_regs, hi_reg, lo_reg, Cpu, Kernel, Effect, done, returned,
  reg, put, delayed_load, finish_with, put_pair,
}
use nach_osx.Prelude.{
  ◌⊎◌, if◌then◌else◌, lt→ltb, length, set, length-set, get_or-set_self, get_or-set_ne, Outcome, ok,
  abort, overrun, ◌>>=◌, ℕ, ◌<◌, ◌≡◌, sym, ◌∙◌, subst, Bool, true, false, arith,
}

-- The result, if there is one, satisfies `P`, and nothing was read or written outside an array. The
-- machine may stop, at an ASSERT or in the kernel.
abbrev pub Safe : {A : Type 0} → (A → Type 0) → Outcome A → Type 0
Safe P (ok x) = P x
Safe P abort = Unit {0}
Safe P overrun = false ≡ true

pub Safe-bind :
    {A B : Type 0} (P : A → Type 0) (Q : B → Type 0) (r : Outcome A) (f : A → Outcome B)
    → Safe P r
    → ((x : A) → P x → Safe Q (f x))
    → Safe Q (r >>= f)
Safe-bind P Q (ok x) f s next = next x s
Safe-bind P Q abort f s next = tt
Safe-bind P Q overrun f s next = cc

module _ {S : Type 0} where
  pub put_ok :
      (c : Cpu S) (i v : ℕ)
      → length c.registers ≡ num_total_regs
      → i < num_total_regs
      → put c i v ≡ ok (record c { registers = set c.registers i v })
  unfolding put
  put_ok c i v size h = rw (lt→ltb i (length c.registers) (omega (arith, size)))

  unfoldable pub written : Cpu S → ℕ → ℕ → Cpu S
  written c i v = record c { registers = set c.registers i v }

module _ {S : Type 0} (Rest : S → Type 0) where
  -- Between two instructions: there are all the registers, register 0 is 0, and the load that is under
  -- way is for one of the 32; what is `rest` keeps `Rest`.
  pub record IsCpu (c : Cpu S) : Type 0 where
    pub size : length c.registers ≡ num_total_regs
    pub zero_reg : reg c 0 ≡ 0
    pub target : reg c load_reg < 32
    pub rest_kept : Rest c.rest

  -- Inside an instruction.
  pub record IsRunning (c : Cpu S) : Type 0 where
    pub size : length c.registers ≡ num_total_regs
    pub target : reg c load_reg < 32
    pub rest_kept : Rest c.rest

  -- What the rest of the machine keeps to, where it is asked for 1, 2 or 4 bytes: it leaves the registers,
  -- and itself, as an instruction may find them.
  pub record KernelLaws (k : Kernel S) : Type 0 where
    pub reads :
        (c : Cpu S) (address size : ℕ)
        → IsCpu c
        → (size ≡ 1) ⊎ ((size ≡ 2) ⊎ (size ≡ 4))
        → Safe (λ r. IsCpu r.1) (k.read_mem c address size)
    pub writes :
        (c : Cpu S) (address size value : ℕ)
        → IsCpu c
        → (size ≡ 1) ⊎ ((size ≡ 2) ⊎ (size ≡ 4))
        → Safe (λ r. IsCpu r.1) (k.write_mem c address size value)
    pub raises :
        (e : ExceptionType) (address : ℕ) (c : Cpu S)
        → IsCpu c
        → Safe IsCpu (k.raise_exception e address c)

  -- A break leaves a load for one of the 32 registers.
  abbrev pub Good : Effect S → Type 0
  Good (done next_reg next_value pc_after c) = (next_reg < 32) × IsRunning c
  Good (returned c) = IsCpu c

  pub if_lem :
      (b : Bool) (x y : Outcome (Effect S))
      → Safe Good x
      → Safe Good y
      → Safe Good (if b then x else y)
  if_lem true x y p q = p
  if_lem false x y p q = q

  pub running : (c : Cpu S) → IsCpu c → IsRunning c
  running c v = record { size = v.size; target = v.target; rest_kept = v.rest_kept }

  pub put_lem : (c : Cpu S) (i v : ℕ) → IsRunning c → i < 37 → Safe IsRunning (put c i v)
  unfolding put
  put_lem c i v w h = rw (lt→ltb i (length c.registers) (omega (arith, w.size))) (record {
    size = length-set c.registers i v ∙ w.size;
    target = subst (λ n. n < 32) (sym (get_or-set_ne c.registers i 37 v 0 (omega arith))) w.target;
    rest_kept = w.rest_kept;
  })

  pub finish_with_lem :
      (c : Cpu S) (i v pc : ℕ) → IsRunning c → i < 37 → Safe Good (finish_with c i v pc)
  unfolding finish_with
  finish_with_lem c i v pc w h =
      Safe-bind IsRunning Good (put c i v) _ (put_lem c i v w h) (λ c' w'. (omega arith, w'))

  pub put_pair_lem : (c : Cpu S) (hi lo pc : ℕ) → IsRunning c → Safe Good (put_pair c hi lo pc)
  unfolding put_pair
  put_pair_lem c hi lo pc w =
      Safe-bind IsRunning Good (put c hi_reg hi) _ (put_lem c hi_reg hi w (omega arith)) (λ c₁ w₁.
        Safe-bind IsRunning Good (put c₁ lo_reg lo) _ (put_lem c₁ lo_reg lo w₁ (omega arith))
          (λ c₂ w₂. (omega arith, w₂)))

  pub delayed_load_lem :
      (c : Cpu S) (r v : ℕ)
      → IsRunning c
      → r < 32
      → (c' : Cpu S) × (delayed_load c r v ≡ ok c') × IsCpu c'
  unfolding delayed_load
  delayed_load_lem c r v w h =
      let xs = c.registers in
      let x₁ = set xs (reg c load_reg) (reg c load_value_reg) in
      let n₁ = length-set xs (reg c load_reg) (reg c load_value_reg) ∙ w.size in
      let x₂ = set x₁ 37 r in
      let n₂ = length-set x₁ 37 r ∙ n₁ in
      let x₃ = set x₂ 38 v in
      let n₃ = length-set x₂ 38 v ∙ n₂ in
      (
        record c { registers = set x₃ 0 0 },
        rw (
          put_ok c (reg c load_reg) (reg c load_value_reg) w.size (omega (arith, w.target)),
          put_ok (record c { registers = x₁ }) 37 r n₁ (omega arith),
          put_ok (record c { registers = x₂ }) 38 v n₂ (omega arith),
          put_ok (record c { registers = x₃ }) 0 0 n₃ (omega arith),
        ),
        record {
          size = length-set x₃ 0 0 ∙ n₃;
          zero_reg = get_or-set_self x₃ 0 0 0 (omega (arith, n₃));
          target =
              subst (λ n. n < 32)
                (sym (
                  get_or-set_ne x₃ 0 37 0 0 (omega arith)
                  ∙ get_or-set_ne x₂ 38 37 v 0 (omega arith)
                  ∙ get_or-set_self x₁ 37 r 0 (omega (arith, n₁))))
                h;
          rest_kept = w.rest_kept;
        },
      )

  -- The program counters are above the registers that `IsCpu` speaks of.
  pub put_counter : (c : Cpu S) (i v : ℕ) → IsCpu c → 0 < i → i < 37 → Safe IsCpu (put c i v)
  put_counter c i v w pos_i h = rw (put_ok c i v w.size (omega arith)) (record {
    size = length-set c.registers i v ∙ w.size;
    zero_reg = get_or-set_ne c.registers i 0 v 0 (omega arith) ∙ w.zero_reg;
    target = subst (λ n. n < 32) (sym (get_or-set_ne c.registers i 37 v 0 (omega arith))) w.target;
    rest_kept = w.rest_kept;
  })
