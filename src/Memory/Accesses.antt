-- ===== src/Memory/Accesses.antt =====
-- WriteMem and a ReadMem of the same virtual address.
use nach_osx.Prelude.{
  leb, ◌==◌, Bool-cases, length, Outcome, ok, ok-injective, >>=-eq-ok, ℕ, ◌+◌, ◌^◌, ◌≤◌, ◌<◌, ◌≡◌,
  refl, sym, ap, ◌∙◌, subst, inl, inr, true, ◌||◌, some, List, arith,
}
use nach_osx.Translate.{ExceptionType, no_exception, Machine, translate}
use nach_osx.Translate.Entries.{IsMachine}
use nach_osx.Translate.Repeated.{translate-translate}
use nach_osx.Execution.{Cpu}
use nach_osx.Memory.{write_value, is_no_exception, raise_exception, read_mem, write_mem}
use nach_osx.Memory.Values.{stored, AccessSize, read_value-write_value}

no_exception_lem : (x : ExceptionType) → is_no_exception x ≡ true → x ≡ no_exception
no_exception_lem no_exception e = refl
no_exception_lem _ e = cc

write_value_inside :
    (memory : List ℕ) (address size value : ℕ) (memory' : List ℕ)
    → write_value memory address size value ≡ ok memory'
    → address + size ≤ length memory
unfolding write_value
write_value_inside memory address size value memory' h =
    elim (Bool-cases ((size == 1) || ((size == 2) || (size == 4)))) [
      | inl good ↦ elim (Bool-cases (leb (address + size) (length memory))) [
        | inl inside ↦ ground (arith, inside)
        | inr out ↦ cc (rw (good, out) at h)
      ]
      | inr bad ↦ cc (rw bad at h)
    ]

module _ (handler : ExceptionType → Cpu Machine → Outcome (Cpu Machine)) where
  -- Where WriteMem of 1, 2 or 4 bytes of a word answers true, ReadMem of the same virtual address gives what
  -- was written, as far as the bytes go: the page is still there, at the same frame.
  pub read_mem-write_mem :
      (c c' : Cpu Machine) (address size value : ℕ)
      → IsMachine c.rest
      → AccessSize size
      → value < 2 ^ 32
      → write_mem handler c address size value ≡ ok (true, c')
      → (c'' : Cpu Machine) × (read_mem handler c' address size
          ≡ ok (some (stored size value), c''))
        × (c''.registers ≡ c'.registers)
        × (c''.rest.main_memory ≡ c'.rest.main_memory)
  unfolding write_mem read_mem
  read_mem-write_mem c c' address size value v sizes word h =
      let ((x, p, m), e₁, h₁) = >>=-eq-ok (translate c.rest address size true) _ _ h in
      elim (Bool-cases (is_no_exception x)) [
        | inl fine ↦
            let (memory', e₂, h₂) =
              >>=-eq-ok (write_value m.main_memory p size value) _ _ (rw fine at h₁) in
            let there : translate c.rest address size true ≡ ok (no_exception, p, m) =
              e₁ ∙ ap (λ y. ok (y, p, m)) (no_exception_lem x fine) in
            let (m'', again, kept) = translate-translate c.rest m address size p memory' v there in
            let (memory₁, wrote, read, _) =
              read_value-write_value m.main_memory p size value sizes word
                (write_value_inside m.main_memory p size value memory' e₂) in
            let same : memory₁ ≡ memory' = ok-injective (sym wrote ∙ e₂) in
            let c₁ : Cpu Machine = record c { rest = record m { main_memory = memory' } } in
            let is : c₁ ≡ c' = ap (λ r. r.1) (ok-injective h₂) in
            subst
              (λ d.
                (c'' : Cpu Machine) × (read_mem handler d address size
                  ≡ ok (some (stored size value), c''))
                × (c''.registers ≡ d.registers)
                × (c''.rest.main_memory ≡ d.rest.main_memory))
              is (record c { rest = m'' }, rw (again, kept, sym same, read) refl, refl, kept)
        | inr faulted ↦
            let (c₂, e₂, h₂) =
              >>=-eq-ok (raise_exception handler x address (record c { rest = m })) _ _
                (rw faulted at h₁) in
            cc (ok-injective h₂)
      ]
