-- ===== src/Console.antt =====
-- machine/console.h and machine/console.cc, with PollFile, Read, WriteFile, Close, OpenForWrite and
-- OpenForReadWrite of machine/sysdep.cc: the console device over files of the host.
--
-- A char is a byte. EOF, put into a char, is the byte 255, and a char that is 255 is equal to EOF.
-- The interrupts that the device schedules are in `interrupt`; when they fire is about Interrupts.
pub mod Session
use nach_osx.Prelude.{
  ◌==◌, if◌then◌else◌, length, get_or, ℤ, pos, negsuc, int_eq, Outcome, ok, ◌>>=◌, ◌>>◌, check, ℕ,
  ◌+◌, Bool, true, false, not, ◌||◌, Option, none, some, List, [], ◌∷◌,
}
use nach_osx.Interrupts.{Interrupt, schedule, is_idle, console_read_int, console_write_int}

pub record Console : Type 0 where
  pub read_file_no : ℤ
  pub write_file_no : ℤ
  pub write_handler : ℕ
  pub read_handler : ℕ
  pub handler_arg : ℕ
  pub put_busy : Bool
  pub incoming : ℕ

-- The device with what it uses: interrupt, two counters of stats, and the host.
pub record ConsoleMachine (H : Type 0) : Type 0 where
  pub console : Console
  pub interrupt : Interrupt
  pub num_console_chars_read : ℕ
  pub num_console_chars_written : ℕ
  pub host : H

-- The calls of the host, with the int that each returns; `select` is asked about one file and told whether
-- it may wait. `call` runs a handler with its argument. The last three are addresses.
pub record Outside (H : Type 0) : Type 0 where
  pub open_existing : List ℕ → H → ℤ × H
  pub open_truncated : List ℕ → H → ℤ × H
  pub close_unix : ℤ → H → ℤ × H
  pub select : ℤ → Bool → H → ℤ × H
  pub read_unix : ℤ → ℕ → H → ℤ × List ℕ × H
  pub write_unix : ℤ → List ℕ → H → ℤ × H
  pub call : ℕ → ℕ → ConsoleMachine H → Outcome (ConsoleMachine H)
  pub console_read_poll : ℕ
  pub console_write_done : ℕ
  pub this : ℕ

abbrev pub eof : ℕ
eof = 255

abbrev pub console_time : ℕ
console_time = 100

abbrev pub not_negative : ℤ → Bool
not_negative (pos n) = true
not_negative (negsuc n) = false

module _ {H : Type 0} (outside : Outside H) where
  pub poll_file : ℤ → Bool → H → Outcome (Bool × H)
  poll_file fd idle host =
      let (ret_val, host') = outside.select fd idle host in
      do
        check (int_eq ret_val (pos 0) || int_eq ret_val (pos 1))
        ok (not (int_eq ret_val (pos 0)), host')

  pub open_for_write : List ℕ → H → Outcome (ℤ × H)
  open_for_write name host =
      let (fd, host') = outside.open_truncated name host in
      do check (not_negative fd); ok (fd, host')

  pub open_for_read_write : List ℕ → Bool → H → Outcome (ℤ × H)
  open_for_read_write name crash_on_error host =
      let (fd, host') = outside.open_existing name host in
      do check (not crash_on_error || not_negative fd); ok (fd, host')

  -- The bytes that were put into the buffer.
  pub read : ℤ → ℕ → H → Outcome (List ℕ × H)
  read fd n_bytes host =
      let (ret_val, bytes, host') = outside.read_unix fd n_bytes host in
      do check (int_eq ret_val (pos n_bytes)); ok (bytes, host')

  pub write_file : ℤ → List ℕ → H → Outcome H
  write_file fd buffer host =
      let (ret_val, host') = outside.write_unix fd buffer host in
      do check (int_eq ret_val (pos (length buffer))); ok host'

  pub close : ℤ → H → Outcome H
  close fd host =
      let (ret_val, host') = outside.close_unix fd host in do check (not_negative ret_val); ok host'

  open_read_file : Option (List ℕ) → H → Outcome (ℤ × H)
  unfolding open_for_read_write
  open_read_file none host = ok (pos 0, host)
  open_read_file (some name) host = open_for_read_write name true host

  open_write_file : Option (List ℕ) → H → Outcome (ℤ × H)
  unfolding open_for_write
  open_write_file none host = ok (pos 1, host)
  open_write_file (some name) host = open_for_write name host

  -- The constructor, on a machine whose console is the memory that `new` returned.
  pub new_console :
      Option (List ℕ) → Option (List ℕ) → ℕ → ℕ → ℕ → ConsoleMachine H → Outcome (ConsoleMachine H)
  unfolding open_read_file open_write_file
  new_console read_name write_name read_avail write_done call_arg m = do
    (read_file_no, h₁) ← open_read_file read_name m.host
    (write_file_no, h₂) ← open_write_file write_name h₁
    interrupt ←
        schedule outside.console_read_poll outside.this console_time console_read_int m.interrupt
    ok (record m {
      console = record {
        read_file_no = read_file_no;
        write_file_no = write_file_no;
        write_handler = write_done;
        read_handler = read_avail;
        handler_arg = call_arg;
        put_busy = false;
        incoming = eof;
      };
      interrupt = interrupt;
      host = h₂;
    })

  -- The destructor.
  pub delete_console : ConsoleMachine H → Outcome (ConsoleMachine H)
  delete_console m = do
    h₁ ←
        if not (int_eq m.console.read_file_no (pos 0))
        then close m.console.read_file_no m.host
        else ok m.host
    h₂ ←
        if not (int_eq m.console.write_file_no (pos 1))
        then close m.console.write_file_no h₁
        else ok h₁
    ok (record m { host = h₂ })

  -- CheckCharAvail once PollFile has been asked, behind the first return.
  take_char : ConsoleMachine H → Outcome (ConsoleMachine H)
  take_char m = do
    (bytes, host) ← read m.console.read_file_no 1 m.host
    let m' = record m {
      console = record m.console { incoming = get_or bytes 0 0 };
      num_console_chars_read = m.num_console_chars_read + 1;
      host = host;
    }
    outside.call m.console.read_handler m.console.handler_arg m'

  pub check_char_avail : ConsoleMachine H → Outcome (ConsoleMachine H)
  unfolding take_char
  check_char_avail m = do
    interrupt ←
        schedule outside.console_read_poll outside.this console_time console_read_int m.interrupt
    let m₁ = record m { interrupt = interrupt }
    if not (m₁.console.incoming == eof) then ok m₁ else do
      (ready, host) ← poll_file m₁.console.read_file_no (is_idle interrupt.status) m₁.host
      let m₂ = record m₁ { host = host }
      if not ready then ok m₂ else take_char m₂

  pub write_done : ConsoleMachine H → Outcome (ConsoleMachine H)
  write_done m = outside.call m.console.write_handler m.console.handler_arg (record m {
    console = record m.console { put_busy = false };
    num_console_chars_written = m.num_console_chars_written + 1;
  })

  pub get_char : ConsoleMachine H → ℕ × ConsoleMachine H
  get_char m = (m.console.incoming, record m { console = record m.console { incoming = eof } })

  pub put_char : ℕ → ConsoleMachine H → Outcome (ConsoleMachine H)
  put_char ch m = do
    check (not m.console.put_busy)
    host ← write_file m.console.write_file_no (ch ∷ []) m.host
    interrupt ←
        schedule outside.console_write_done outside.this console_time console_write_int m.interrupt
    ok (record m {
      console = record m.console { put_busy = true };
      interrupt = interrupt;
      host = host;
    })
