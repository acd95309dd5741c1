-- ===== src/Examples/Steps.antt =====
-- One instruction of a program of one page, over the memory of the machine.
use nach_osx.Prelude.{
  ◌==◌, if◌then◌else◌, get_or, replicate, ok, ℕ, zero, suc, ◌+◌, ◌%◌, ◌^◌, ◌<◌, ◌≡◌, refl, Bool,
  true, false, none, some, [], ◌∷◌, arith,
}
use nach_osx.Translate.{Machine, TranslationEntry, translate}
use nach_osx.Execution.{Cpu, one_instruction, reg, pc_reg, next_pc_reg, load_reg, load_value_reg}
use nach_osx.Execution.Results.{one_instruction-register}
use nach_osx.MipsSim.Decoding.{decode, decode_op_code, decode_extra}
use nach_osx.MipsSim.OpCodes.{op_table, special_table}
use nach_osx.MipsSim.Meaning.{Means, computes}
use nach_osx.Memory.{machine_kernel, read_mem, read_value, bytes_at}
use nach_osx.SystemCalls.{other_exception}

abbrev page_0 : Bool → TranslationEntry
page_0 used = record {
  virtual_page = 0;
  physical_page = 0;
  valid = true;
  read_only = false;
  use_bit = used;
  dirty = false;
}

-- ADDU r3,r1,r2 at address 0.
abbrev one_word : Bool → Machine
one_word used = record {
  main_memory = 0x21 ∷ 0x18 ∷ 0x22 ∷ 0 ∷ replicate 4092 0;
  tlb = none;
  page_table = some (page_0 used ∷ []);
  page_table_size = 1;
}

abbrev at_start : Cpu Machine
at_start = record { registers = 0 ∷ 7 ∷ 5 ∷ replicate 37 0; rest = one_word false }

fetched :
    (machine_kernel other_exception).read_mem at_start (reg at_start pc_reg) 4
    ≡ ok (some 0x0022_1821, record at_start { rest = one_word true })
unfolding machine_kernel read_mem translate read_value bytes_at
fetched = refl

words_in_place : (j : ℕ) → reg at_start j < 2 ^ 32
words_in_place zero = omega arith
words_in_place (suc zero) = omega arith
words_in_place (suc (suc zero)) = omega arith
words_in_place (suc (suc (suc j))) = zeros 37 j
  where
    zeros : (n j : ℕ) → get_or (replicate n 0) j 0 < 2 ^ 32
    zeros zero j = omega arith
    zeros (suc n) zero = omega arith
    zeros (suc n) (suc j) = zeros n j

addu_computes : computes (decode 0x0022_1821).op_code ≡ true
unfolding decode op_table special_table decode_op_code decode_extra
addu_computes = refl

one_instruction-register_example :
    (v : ℕ) × (c : Cpu Machine) × (one_instruction (machine_kernel other_exception) at_start ≡ ok c)
    × Means
        (decode 0x0022_1821).op_code
        (reg at_start (decode 0x0022_1821).rs)
        (reg at_start (decode 0x0022_1821).rt)
        (decode 0x0022_1821).extra
        v
    × (reg c 0 ≡ 0)
    × ((j : ℕ)
        → 0 < j
        → j < 32
        → reg c j ≡ (
            if reg at_start load_reg == j
            then reg at_start load_value_reg
            else if (decode 0x0022_1821).rd == j
            then v
            else reg at_start j))
    × (reg c pc_reg ≡ reg at_start next_pc_reg)
    × (reg c next_pc_reg ≡ (reg at_start next_pc_reg + 4) % 2 ^ 32)
    × (reg c load_reg ≡ 0)
one_instruction-register_example =
    one_instruction-register (machine_kernel other_exception) at_start (one_word true) 0x0022_1821
      refl (omega arith) words_in_place fetched addu_computes
