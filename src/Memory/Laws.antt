-- ===== src/Memory/Laws.antt =====
-- ReadMem, WriteMem and RaiseException keep what an instruction relies on.
use nach_osx.Prelude.{
  leb, ◌==◌, Bool-cases, length, set, length-overlay, length-set, get_or-set_ne, Outcome, ℕ, ◌+◌,
  ◌≤◌, ◌<◌, ◌≡◌, sym, ◌∙◌, subst, ◌⊎◌, inl, inr, Bool, true, false, ◌||◌, List, arith,
}
use nach_osx.Words.{to_bytes}
use nach_osx.Translate.{ExceptionType, Machine}
use nach_osx.Translate.Entries.{IsMachine}
use nach_osx.Translate.Translation.{
  Translated, unaligned, unmapped, protected, no_frame, mapped, translate-Translated,
}
use nach_osx.Execution.{Cpu}
use nach_osx.Execution.Registers.{
  Safe, Safe-bind, IsCpu, IsRunning, KernelLaws, put_ok, delayed_load_lem,
}
use nach_osx.Memory.{
  bytes_at, read_value, write_value, is_no_exception, raise_exception, read_mem, write_mem,
  machine_kernel,
}

-- An answer of Translate leaves a machine, and a physical address is inside the memory.
abbrev InMachine : Machine → ExceptionType → ℕ → ℕ → Type 0
InMachine m x address size =
    IsMachine m × (is_no_exception x ≡ true → address + size ≤ length m.main_memory)

Translated-InMachine :
    (m : Machine) (address size : ℕ) (writing : Bool) (x : ExceptionType) (a : ℕ) (m' : Machine)
    → IsMachine m
    → Translated m address size writing x a m'
    → InMachine m' x a size
Translated-InMachine m address size writing x a m' v (unaligned off) = (v, λ no. cc)
Translated-InMachine m address size writing x a m' v (unmapped e (inl fault) none_maps) =
    (v, λ fine. cc (rw fault at fine))
Translated-InMachine m address size writing x a m' v (unmapped e (inr fault) none_maps) =
    (v, λ fine. cc (rw fault at fine))
Translated-InMachine m address size writing x a m' v (protected i entry maps read_only writes) =
    (v, λ no. cc)
Translated-InMachine m address size writing x a m' v (no_frame i entry maps outside) = (v, λ no. cc)
Translated-InMachine m address size writing x a m' v
      (mapped i entry p m₁ maps may at fits again same w) =
    (w, λ fine. omega (arith, fits, w.memory))

read_value-Safe :
    (memory : List ℕ) (address size : ℕ)
    → address + size ≤ length memory
    → Safe (λ _. Unit {0}) (read_value memory address size)
unfolding read_value bytes_at
read_value-Safe memory address size fits = elim (Bool-cases (size == 1)) [
  | inl one ↦
      let inside : leb (address + 1) (length memory) ≡ true = ground (arith, one, fits) in
      rw (one, inside) tt
  | inr more ↦ elim (Bool-cases ((size == 2) || (size == 4))) [
    | inl even ↦
        let inside : leb (address + size) (length memory) ≡ true = ground (arith, fits) in
        rw (more, even, inside) tt
    | inr other ↦ rw (more, other) tt
  ]
]

write_value-Safe :
    (memory : List ℕ) (address size value : ℕ)
    → address + size ≤ length memory
    → Safe (λ memory'. length memory' ≡ length memory) (write_value memory address size value)
unfolding write_value
write_value-Safe memory address size value fits =
    elim (Bool-cases ((size == 1) || ((size == 2) || (size == 4)))) [
      | inl good ↦
          let inside : leb (address + size) (length memory) ≡ true = ground (arith, fits) in
          rw (good, inside) (length-overlay memory address (to_bytes size value))
      | inr bad ↦ rw bad tt
    ]

module _ (handler : ExceptionType → Cpu Machine → Outcome (Cpu Machine))
    (handles : (e : ExceptionType) (c : Cpu Machine)
      → IsCpu IsMachine c
      → Safe (IsCpu IsMachine) (handler e c)) where
  raise_exception-Safe :
      (e : ExceptionType) (address : ℕ) (c : Cpu Machine)
      → IsCpu IsMachine c
      → Safe (IsCpu IsMachine) (raise_exception handler e address c)
  unfolding raise_exception
  raise_exception-Safe e address c v =
      let c₁ : Cpu Machine = record c { registers = set c.registers 39 address } in
      let w : IsRunning IsMachine c₁ = record {
        size = length-set c.registers 39 address ∙ v.size;
        target =
            subst (λ n. n < 32) (sym (get_or-set_ne c.registers 39 37 address 0 (omega arith)))
              v.target;
        rest_kept = v.rest_kept;
      } in
      let (c₂, e₂, v₂) = delayed_load_lem IsMachine c₁ 0 0 w (omega arith) in
      rw (put_ok c 39 address v.size (omega arith), e₂) (handles e c₂ v₂)

  with_rest :
      (c : Cpu Machine) (m : Machine)
      → IsCpu IsMachine c
      → IsMachine m
      → IsCpu IsMachine (record c { rest = m })
  with_rest c m v w = record {
    size = v.size;
    zero_reg = v.zero_reg;
    target = v.target;
    rest_kept = w;
  }

  read_mem-Safe :
      (c : Cpu Machine) (address size : ℕ)
      → IsCpu IsMachine c
      → (size ≡ 1) ⊎ ((size ≡ 2) ⊎ (size ≡ 4))
      → Safe (λ r. IsCpu IsMachine r.1) (read_mem handler c address size)
  unfolding read_mem
  read_mem-Safe c address size v sizes =
      let (x, p, m, e, end) = translate-Translated c.rest address size false v.rest_kept sizes in
      let (w, inside) = Translated-InMachine c.rest address size false x p m v.rest_kept end in
      let c' : Cpu Machine = record c { rest = m } in
      let v' = with_rest c m v w in
      elim (Bool-cases (is_no_exception x)) [
        | inl fine ↦
            rw (e, fine)
              (Safe-bind (λ _. Unit {0}) (λ r. IsCpu IsMachine r.1)
                (read_value m.main_memory p size) _
                (read_value-Safe m.main_memory p size (inside fine)) (λ value _. v'))
        | inr faulted ↦
            rw (e, faulted)
              (Safe-bind (IsCpu IsMachine) (λ r. IsCpu IsMachine r.1)
                (raise_exception handler x address c') _ (raise_exception-Safe x address c' v')
                (λ c'' v''. v''))
      ]

  write_mem-Safe :
      (c : Cpu Machine) (address size value : ℕ)
      → IsCpu IsMachine c
      → (size ≡ 1) ⊎ ((size ≡ 2) ⊎ (size ≡ 4))
      → Safe (λ r. IsCpu IsMachine r.1) (write_mem handler c address size value)
  unfolding write_mem
  write_mem-Safe c address size value v sizes =
      let (x, p, m, e, end) = translate-Translated c.rest address size true v.rest_kept sizes in
      let (w, inside) = Translated-InMachine c.rest address size true x p m v.rest_kept end in
      let c' : Cpu Machine = record c { rest = m } in
      elim (Bool-cases (is_no_exception x)) [
        | inl fine ↦
            rw (e, fine)
              (Safe-bind (λ memory. length memory ≡ length m.main_memory) (λ r. IsCpu IsMachine r.1)
                (write_value m.main_memory p size value) _
                (write_value-Safe m.main_memory p size value (inside fine))
                (λ memory same.
                  with_rest c (record m { main_memory = memory }) v
                    (record { table = w.table; memory = same ∙ w.memory })))
        | inr faulted ↦
            rw (e, faulted)
              (Safe-bind (IsCpu IsMachine) (λ r. IsCpu IsMachine r.1)
                (raise_exception handler x address c') _
                (raise_exception-Safe x address c' (with_rest c m v w)) (λ c'' v''. v''))
      ]

  pub machine_kernel-KernelLaws : KernelLaws IsMachine (machine_kernel handler)
  unfolding machine_kernel
  machine_kernel-KernelLaws = record {
    reads = read_mem-Safe;
    writes = write_mem-Safe;
    raises = raise_exception-Safe;
  }
