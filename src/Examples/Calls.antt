-- ===== src/Examples/Calls.antt =====
-- A user program of one page: a Write of six characters with a newline, a Read of the console, and a call
-- that is not finished.
use nach_osx.Prelude.{
  length, get_or, replicate, length-replicate, pos, minus_one, Outcome, ok, ℕ, ◌-◌, ◌<◌, ◌≡◌, refl,
  true, false, none, some, List, [], ◌∷◌, arith,
}
use nach_osx.UserState.{return_from_system_call}
use nach_osx.Memory.{read_mem, read_value, bytes_at, signed_byte}
use nach_osx.Translate.{translate, TranslationEntry, Machine, memory_size}
use nach_osx.Execution.{read_register, write_register, put, num_total_regs}
use nach_osx.OpenFilesTable.{OpenFilesTable}
use nach_osx.SystemCalls.{
  Host, System, get_reg, set_reg, read_user, returned, new_chars, store_char, store_int, load_char,
  c_string,
}
use nach_osx.SystemCalls.Files.{
  newline, write_content, reply, write_loop, rounds, nachos_write, nachos_read,
}
use nach_osx.SystemCalls.Files.Writing.{nachos_write-newline}
use nach_osx.SystemCalls.Files.Console.{Fails, nachos_read-Fails}

abbrev pub no_host : Host ℕ
no_host = record {
  creat = λ name h. (minus_one, h);
  open_unix = λ name h. (minus_one, h);
  read_unix = λ fd n h. (pos 0, [], h);
  write_unix = λ fd text h. h;
  close_unix = λ fd h. (pos 0, h);
  print = λ text h. length text;
  socket = λ is_six stream h. (minus_one, h);
  connect = λ fd is_six text port h. h;
}

abbrev pub zeros : ℕ → List ℕ
zeros size = replicate size 0

abbrev page : TranslationEntry
page = record {
  virtual_page = 0;
  physical_page = 0;
  valid = true;
  read_only = false;
  use_bit = false;
  dirty = false;
}

abbrev pub program : Machine
program = record {
  main_memory = b'h' ∷ b'i' ∷ 10 ∷ replicate (memory_size - 3) 0;
  tlb = none;
  page_table = some (page ∷ []);
  page_table_size = 1;
}

abbrev no_files : OpenFilesTable
no_files = record {
  open_files = [];
  open_files_map = record { num_bits = 0; num_words = 0; map = [] };
  usage = pos 1;
}

-- Registers 2, 4, 5 and 6 as given.
abbrev pub calling : ℕ → ℕ → ℕ → ℕ → System ℕ
calling code address size descriptor = record {
  cpu = record {
    registers = 0 ∷ 0 ∷ code ∷ 0 ∷ address ∷ size ∷ descriptor ∷ replicate (num_total_regs - 7) 0;
    rest = program;
  };
  open_files = no_files;
  machine_sockets = [];
  host = 0;
  requests = [];
}

value_or : {A : Type 0} → Outcome A → A → A
value_or (ok a) b = a
value_or _ b = b

after_write : System ℕ
after_write = value_or (nachos_write no_host zeros (calling 7 0 6 1)) (calling 7 0 6 1)

write_ends : nachos_write no_host zeros (calling 7 0 6 1) ≡ ok after_write
unfolding after_write value_or nachos_write get_reg read_register new_chars write_loop read_user
    read_mem translate read_value bytes_at signed_byte store_int load_char store_char write_content
    c_string reply set_reg write_register put returned return_from_system_call
write_ends = refl

nachos_read-Fails_example : Fails (nachos_read no_host zeros (calling 6 0 4 0))
nachos_read-Fails_example =
    nachos_read-Fails no_host zeros (calling 6 0 4 0) (λ n. length-replicate {A = ℕ} n 0) refl

nachos_write-newline_example :
    (j : ℕ) × (content : List ℕ) × (s₁ : System ℕ) × (write_loop no_host zeros
        (rounds 6)
        (calling 7 0 6 1)
        0
        0
        (zeros 7)
      ≡ ok (j, content, s₁))
    × (j < 6)
    × (get_or content j 0 ≡ newline)
nachos_write-newline_example =
    nachos_write-newline no_host zeros (calling 7 0 6 1) after_write
      (λ n. length-replicate {A = ℕ} n 0) (omega arith) write_ends
