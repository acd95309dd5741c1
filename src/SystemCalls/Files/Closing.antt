-- ===== src/SystemCalls/Files/Closing.antt =====
-- What a system call leaves when it answers, and the call Close.
use nach_osx.Prelude.{
  if◌then◌else◌, Bool-cases, length, set, length-set, get_or-set_self, get_or-set_ne, pos,
  minus_one, int_eq, int_eq_iff, ok, ℕ, ◌<◌, ◌≡◌, refl, sym, ap, ◌∙◌, ◌≢◌, inl, inr, true, false,
  List, arith,
}
use nach_osx.Words.{int_word, word_int}
use nach_osx.MipsSim.Operators.{plus}
use nach_osx.Translate.{Machine}
use nach_osx.Execution.{pc_reg, next_pc_reg, prev_pc_reg, num_total_regs, Cpu, reg, read_register}
use nach_osx.OpenFilesTable.{OpenFilesTable, table_size}
use nach_osx.OpenFilesTable.Start.{is_open, entry, IsTable}
use nach_osx.OpenFilesTable.Closing.{Closed, NotInUse, close_file-Closed, close_file_refused}
use nach_osx.UserState.Returns.{write_register_lem, return_from_system_call-Returned}
use nach_osx.SystemCalls.{Host, System, get_reg, set_reg, returned}
use nach_osx.SystemCalls.Files.{minus_one_word, reply, nachos_close}

module _ {H : Type 0} where
  -- `s'` is `s` with `value` in register 2 and the program counters on the next instruction.
  pub record Replied (s : System H) (value : ℕ) (s' : System H) : Type 0 where
    pub same : s' ≡ record s { cpu = s'.cpu }
    pub machine : s'.cpu.rest ≡ s.cpu.rest
    pub result : reg s'.cpu 2 ≡ value
    pub pc : reg s'.cpu pc_reg ≡ reg s.cpu next_pc_reg
    pub next_pc : reg s'.cpu next_pc_reg ≡ plus (reg s.cpu next_pc_reg) 4
    pub others :
        (i : ℕ)
        → i ≢ 2
        → i ≢ prev_pc_reg
        → i ≢ pc_reg
        → i ≢ next_pc_reg
        → reg s'.cpu i ≡ reg s.cpu i

  pub reply-Replied :
      (s : System H) (value : ℕ)
      → length s.cpu.registers ≡ num_total_regs
      → (s' : System H) × (reply s value ≡ ok s') × Replied s value s'
  unfolding reply set_reg returned
  reply-Replied s value size =
      let regs = s.cpu.registers in
      let c : Cpu Machine = record s.cpu { registers = set regs 2 value } in
      let (c', e, r) = return_from_system_call-Returned c (length-set regs 2 value ∙ size) in
      let elsewhere : (i : ℕ) → i ≢ 2 → reg c i ≡ reg s.cpu i =
        λ i p. get_or-set_ne regs 2 i value 0 (λ q. p (sym q)) in
      (
        record s { cpu = c' },
        rw (write_register_lem s.cpu 2 value size (omega arith), e) refl,
        record {
          same = refl;
          machine = r.rest;
          result =
              r.others 2 (λ q. absurd (omega arith)) (λ q. absurd (omega arith))
                (λ q. absurd (omega arith))
              ∙ get_or-set_self regs 2 value 0 (omega (arith, size));
          pc = r.pc ∙ elsewhere next_pc_reg (λ q. absurd (omega arith));
          next_pc =
              r.next_pc ∙ ap (λ w. plus w 4) (elsewhere next_pc_reg (λ q. absurd (omega arith)));
          others = λ i p q₁ q₂ q₃. r.others i q₁ q₂ q₃ ∙ elsewhere i p;
        },
      )

  module _ (host : Host H) (fresh : ℕ → List ℕ) (s : System H)
      (size : length s.cpu.registers ≡ num_total_regs) (v : IsTable s.open_files) where
    -- Close of a handle in use closes the Unix handle that it stands for, frees the handle and no other,
    -- answers 1 for the host's 0 and else what the host says, and the program goes on.
    pub nachos_close-Closed :
        (i : ℕ)
        → word_int (reg s.cpu 4) ≡ pos i
        → i < table_size
        → is_open s.open_files i ≡ true
        → entry s.open_files i ≢ minus_one
        → (t' : OpenFilesTable) × (s' : System H) × (nachos_close host fresh s ≡ ok s')
          × Closed s.open_files i t'
          × Replied
              (record s {
                open_files = t';
                host = (host.close_unix (entry s.open_files i) s.host).1;
              })
              (if int_eq (host.close_unix (entry s.open_files i) s.host).0 (pos 0)
                then 1
                else int_word (host.close_unix (entry s.open_files i) s.host).0)
              s'
    unfolding nachos_close get_reg read_register
    nachos_close-Closed i is lt used real =
        let (t', e, closed) = close_file-Closed s.open_files v i lt used in
        let other : int_eq (entry s.open_files i) minus_one ≡ false =
          elim (Bool-cases (int_eq (entry s.open_files i) minus_one)) [
            | inl same ↦ absurd (real ((int_eq_iff _ _).0 same))
            | inr differs ↦ differs
          ] in
        let (s', e', r) = reply-Replied _ _ size in (t', s', rw (is, e, other) e', closed, r)

    -- Close of a handle that is not in use answers -1 and changes nothing else.
    pub nachos_close_refused :
        NotInUse s.open_files (word_int (reg s.cpu 4))
        → (s' : System H) × (nachos_close host fresh s ≡ ok s') × Replied s minus_one_word s'
    unfolding nachos_close get_reg read_register
    nachos_close_refused out =
        let (s', e', r) = reply-Replied s minus_one_word size in
        (s', rw (close_file_refused s.open_files v (word_int (reg s.cpu 4)) out) e', r)
