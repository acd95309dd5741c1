-- ===== src/SystemCalls.antt =====
-- userprog/exception.cc and syscall.h: the system calls of a user program, in a kernel without VM.
--
-- A System is the machine with the open files of its process, the map machineSockets, the host, and what
-- the calls ask of the scheduler. The host's files and sockets are an argument, the record Host. An access
-- to the user's memory that faults goes through ExceptionHandler, but never with a system call, so that it
-- is `other_exception` here. A call that gives up the processor finds its registers again, so that
-- such a request is only noted. Memory that `new` returns is an argument, the function of its size.
pub mod Files
pub mod Sockets
pub mod Dispatch
pub mod Buffers
use nach_osx.Prelude.{
  ltb, leb, ◌==◌, if◌then◌else◌, length, get_or, set, overlay, ℤ, Outcome, ok, abort, overrun,
  ◌>>=◌, ◌>>◌, check, bounds, ℕ, ◌+◌, ◌%◌, Bool, not, Option, List, [], ◌∷◌, ◌++◌,
}
use nach_osx.Words.{word_size, is_negative, to_bytes}
use nach_osx.Translate.{ExceptionType, page_fault_exception, Machine}
use nach_osx.Execution.{Cpu, read_register, write_register}
use nach_osx.Memory.{read_mem, write_mem}
use nach_osx.OpenFilesTable.{OpenFilesTable}
use nach_osx.UserState.{return_from_system_call}

-- What the kernel calls of the host: results as ints, and the bytes that were read.
pub record Host (H : Type 0) : Type 0 where
  pub creat : List ℕ → H → ℤ × H
  pub open_unix : List ℕ → H → ℤ × H
  pub read_unix : ℤ → ℕ → H → ℤ × List ℕ × H
  pub write_unix : ℤ → List ℕ → H → H
  pub close_unix : ℤ → H → ℤ × H
  pub print : List ℕ → H → H
  pub socket : Bool → Bool → H → ℤ × H
  pub connect : ℕ → Bool → List ℕ → ℕ → H → H

pub data Request : Type 0 where
  finish yield : Request
  fork exec : ℕ → Request

pub record System (H : Type 0) : Type 0 where
  pub cpu : Cpu Machine
  pub open_files : OpenFilesTable
  pub machine_sockets : List ℤ
  pub host : H
  pub requests : List Request

-- ExceptionHandler for all but system calls.
unfoldable pub other_exception : ExceptionType → Cpu Machine → Outcome (Cpu Machine)
other_exception page_fault_exception c = ok c
other_exception _ c = abort

-- `new char[size]`, which throws for a negative size.
unfoldable pub new_chars : (ℕ → List ℕ) → ℕ → Outcome (List ℕ)
new_chars fresh size = do check (not (is_negative size)); ok (fresh size)

unfoldable pub store_char : List ℕ → ℕ → ℕ → Outcome (List ℕ)
store_char buffer i value = do bounds (ltb i (length buffer)); ok (set buffer i (value % 256))

-- *(int *)&buffer[i] = value
unfoldable pub store_int : List ℕ → ℕ → ℕ → Outcome (List ℕ)
store_int buffer i value = do
  bounds (leb (i + 4) (length buffer))
  ok (overlay buffer i (to_bytes 4 value))

unfoldable pub load_char : List ℕ → ℕ → Outcome ℕ
load_char buffer i = do bounds (ltb i (length buffer)); ok (get_or buffer i 0)

-- What the host reads of a char *: the characters up to the first 0.
unfoldable pub c_string : List ℕ → Outcome (List ℕ)
c_string [] = overrun
c_string (c ∷ cs) = if c == 0 then ok [] else (do rest ← c_string cs; ok (c ∷ rest))

module _ {H : Type 0} where
  unfoldable pub get_reg : System H → ℕ → Outcome ℕ
  get_reg s i = read_register s.cpu i

  unfoldable pub set_reg : System H → ℕ → ℕ → Outcome (System H)
  set_reg s i value = do c ← write_register s.cpu i value; ok (record s { cpu = c })

  -- ReadMem of one byte of the user's memory; `none` where it returns false.
  unfoldable pub read_user : System H → ℕ → Outcome (Option ℕ × System H)
  read_user s address = do
    (value, c) ← read_mem other_exception s.cpu (address % word_size) 1
    ok (value, record s { cpu = c })

  pub write_user : System H → ℕ → ℕ → Outcome (System H)
  write_user s address value = do
    (_, c) ← write_mem other_exception s.cpu (address % word_size) 1 value
    ok (record s { cpu = c })

  unfoldable pub returned : System H → Outcome (System H)
  returned s = do c ← return_from_system_call s.cpu; ok (record s { cpu = c })

  pub request : Request → System H → System H
  request r s = record s { requests = s.requests ++ (r ∷ []) }
