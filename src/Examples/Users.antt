-- ===== src/Examples/Users.antt =====
-- A user program of one page writes two bytes and reads them back.
use nach_osx.Prelude.{replicate, Outcome, ok, ◌≡◌, refl, inl, inr, Bool, true, some, arith}
use nach_osx.Translate.{Machine, translate}
use nach_osx.Translate.Entries.{IsMachine}
use nach_osx.Execution.{Cpu, num_total_regs}
use nach_osx.Memory.{read_mem, write_mem, write_value}
use nach_osx.Memory.Values.{stored}
use nach_osx.Memory.Accesses.{read_mem-write_mem}
use nach_osx.SystemCalls.{other_exception}
use nach_osx.Examples.Calls.{program}

abbrev cpu : Cpu Machine
cpu = record { registers = replicate num_total_regs 0; rest = program }

written : Outcome (Bool × Cpu Machine) → Cpu Machine
written (ok (_, c)) = c
written _ = cpu

after : Cpu Machine
after = written (write_mem other_exception cpu 8 2 70000)

write_ends : write_mem other_exception cpu 8 2 70000 ≡ ok (true, after)
unfolding after written write_mem translate write_value
write_ends = refl

program-IsMachine : IsMachine program
program-IsMachine = record { table = refl; memory = refl }

read_mem-write_mem_example :
    (c'' : Cpu Machine) × (read_mem other_exception after 8 2 ≡ ok (some (stored 2 70000), c''))
    × (c''.registers ≡ after.registers)
    × (c''.rest.main_memory ≡ after.rest.main_memory)
read_mem-write_mem_example =
    read_mem-write_mem other_exception cpu after 8 2 70000 program-IsMachine (inr (inl refl))
      (omega arith) write_ends
