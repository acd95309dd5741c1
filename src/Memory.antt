-- ===== src/Memory.antt =====
-- ReadMem and WriteMem of machine/translate.cc and RaiseException of machine/machine.cc, in a kernel built
-- without VM on a little-endian host, where WordToHost and its likes change nothing: the interface Kernel
-- of Execution over the machine of Translate. ExceptionHandler is an argument, and the status of the
-- interrupts, which RaiseException sets around the call of it, belongs to Interrupts.
pub mod Values
pub mod Accesses
pub mod Laws
use nach_osx.Prelude.{
  ltb, leb, ◌==◌, if◌then◌else◌, length, take, drop, overlay, Outcome, ok, abort, ◌>>=◌, ◌>>◌,
  bounds, ℕ, ◌+◌, ◌-◌, Bool, true, false, ◌||◌, Option, none, some, List,
}
use nach_osx.Words.{word_size, to_bytes, from_bytes}
use nach_osx.Translate.{ExceptionType, no_exception, Machine, translate}
use nach_osx.Execution.{Cpu, Kernel, put, delayed_load}

abbrev pub bad_vaddr_reg : ℕ
bad_vaddr_reg = 39

-- A char is signed, so a byte becomes the int with its sign.
unfoldable pub signed_byte : ℕ → ℕ
signed_byte b = if ltb b 128 then b else word_size - 256 + b

-- The bytes at a physical address.
unfoldable pub bytes_at : List ℕ → ℕ → ℕ → Outcome (List ℕ)
bytes_at memory address size = do
  bounds (leb (address + size) (length memory))
  ok (take size (drop address memory))

-- The switch of ReadMem.
unfoldable pub read_value : List ℕ → ℕ → ℕ → Outcome ℕ
read_value memory address size =
    if size == 1
    then (do bytes ← bytes_at memory address 1; ok (signed_byte (from_bytes bytes)))
    else if (size == 2) || (size == 4)
    then (do bytes ← bytes_at memory address size; ok (from_bytes bytes))
    else abort

-- The switch of WriteMem.
unfoldable pub write_value : List ℕ → ℕ → ℕ → ℕ → Outcome (List ℕ)
write_value memory address size value =
    if (size == 1) || ((size == 2) || (size == 4))
    then (do
      bounds (leb (address + size) (length memory))
      ok (overlay memory address (to_bytes size value)))
    else abort

abbrev pub is_no_exception : ExceptionType → Bool
is_no_exception no_exception = true
is_no_exception _ = false

module _ (exception_handler : ExceptionType → Cpu Machine → Outcome (Cpu Machine)) where
  pub raise_exception : ExceptionType → ℕ → Cpu Machine → Outcome (Cpu Machine)
  raise_exception which bad_vaddr c = do
    c₁ ← put c bad_vaddr_reg bad_vaddr
    c₂ ← delayed_load c₁ 0 0
    exception_handler which c₂

  unfoldable pub read_mem : Cpu Machine → ℕ → ℕ → Outcome (Option ℕ × Cpu Machine)
  read_mem c address size = do
    (exception, physical, m) ← translate c.rest address size false
    let c' : Cpu Machine = record c { rest = m }
    if is_no_exception exception
        then (do value ← read_value m.main_memory physical size; ok (some value, c'))
        else (do c'' ← raise_exception exception address c'; ok (none, c''))

  unfoldable pub write_mem : Cpu Machine → ℕ → ℕ → ℕ → Outcome (Bool × Cpu Machine)
  write_mem c address size value = do
    (exception, physical, m) ← translate c.rest address size true
    let c' : Cpu Machine = record c { rest = m }
    if is_no_exception exception
        then (do
          memory ← write_value m.main_memory physical size value
          ok (true, record c { rest = record m { main_memory = memory } }))
        else (do c'' ← raise_exception exception address c'; ok (false, c''))

  unfoldable pub machine_kernel : Kernel Machine
  machine_kernel = record {
    read_mem = read_mem;
    write_mem = write_mem;
    raise_exception = raise_exception;
  }
