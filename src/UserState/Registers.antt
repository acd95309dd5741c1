-- ===== src/UserState/Registers.antt =====
-- A context switch brings the registers of a user program back.
use nach_osx.Prelude.{
  lt→ltb, length, get_or, set, drop, overlay, overlay-all, length-set, ok, ℕ, zero, suc, ◌+◌, ◌≤◌,
  ◌<◌, ◌≡◌, refl, sym, ap, ◌∙◌, List, [], ◌∷◌, arith,
}
use nach_osx.Execution.{num_total_regs, Cpu, read_register, write_register}
use nach_osx.Execution.Registers.{put_ok}
use nach_osx.UserState.{save_loop, save_user_state, restore_loop, restore_user_state}

overlay-set :
    (xs : List ℕ) (i v : ℕ) (vs : List ℕ)
    → i < length xs
    → overlay (set xs i v) (suc i) vs ≡ overlay xs i (v ∷ vs)
overlay-set [] i v vs lt = absurd (omega arith)
overlay-set (x ∷ xs) zero v vs lt = refl
overlay-set (x ∷ xs) (suc i) v vs lt = ap (λ l. x ∷ l) (overlay-set xs i v vs (omega arith))

overlay-nil : (xs : List ℕ) (i : ℕ) → overlay xs i [] ≡ xs
overlay-nil [] i = refl
overlay-nil (x ∷ xs) zero = refl
overlay-nil (x ∷ xs) (suc i) = ap (λ l. x ∷ l) (overlay-nil xs i)

drop-cons : (i : ℕ) (xs : List ℕ) → i < length xs → drop i xs ≡ get_or xs i 0 ∷ drop (i + 1) xs
drop-cons i [] lt = absurd (omega arith)
drop-cons zero (x ∷ xs) lt = refl
drop-cons (suc i) (x ∷ xs) lt =
    drop-cons i xs (omega arith) ∙ ap (λ n. get_or xs i 0 ∷ drop n (x ∷ xs)) same
  where
    same : suc (i + 1) ≡ suc i + 1
    same = omega arith

drop-nil : (xs : List ℕ) → [] ≡ drop (length xs) xs
drop-nil [] = refl
drop-nil (x ∷ xs) = drop-nil xs

module _ {S : Type 0} where
  save_loop_lem :
      (n i : ℕ) (c : Cpu S)
      → length c.registers ≡ num_total_regs
      → i + n ≡ num_total_regs
      → save_loop n i c ≡ ok (drop i c.registers)
  unfolding save_loop read_register
  save_loop_lem zero i c size end =
      ap ok (drop-nil c.registers ∙ ap (λ n. drop n c.registers) (omega (arith, size)))
  save_loop_lem (suc n) i c size end =
      rw (lt→ltb i num_total_regs (omega arith), save_loop_lem n (i + 1) c size (omega arith))
        (ap ok (sym (drop-cons i c.registers (omega (arith, size)))))

  restore_loop_lem :
      (values : List ℕ) (i : ℕ) (c : Cpu S)
      → length c.registers ≡ num_total_regs
      → i + length values ≤ num_total_regs
      → restore_loop i values c ≡ ok (record c { registers = overlay c.registers i values })
  unfolding restore_loop write_register
  restore_loop_lem [] i c size room =
      ap (λ l. ok (record c { registers = l })) (sym (overlay-nil c.registers i))
  restore_loop_lem (v ∷ vs) i c size room =
      rw (lt→ltb i num_total_regs (omega arith), put_ok c i v size (omega arith))
        (restore_loop_lem vs (i + 1) (record c { registers = set c.registers i v })
            (length-set c.registers i v ∙ size) (omega arith)
          ∙ ap (λ l. ok (record c { registers = l }))
              (ap (λ n. overlay (set c.registers i v) n vs) next
                ∙ overlay-set c.registers i v vs (omega (arith, size))))
    where
      next : i + 1 ≡ suc i
      next = omega arith

  -- SaveUserState on one machine state and RestoreUserState on another give the second the registers of the
  -- first, all 40 of them, and change nothing else.
  pub restore_user_state-save_user_state :
      (c c' : Cpu S)
      → length c.registers ≡ num_total_regs
      → length c'.registers ≡ num_total_regs
      → (user_registers : List ℕ) × (save_user_state c ≡ ok user_registers)
        × (restore_user_state user_registers c' ≡ ok (record c' { registers = c.registers }))
  unfolding save_user_state restore_user_state
  restore_user_state-save_user_state c c' size size' = (
    c.registers,
    save_loop_lem num_total_regs 0 c size (omega arith),
    restore_loop_lem c.registers 0 c' size' (omega (arith, size))
        ∙ ap (λ l. ok (record c' { registers = l }))
            (overlay-all c'.registers c.registers (size ∙ sym size')),
  )
