-- ===== src/SystemCalls/Dispatch.antt =====
-- ExceptionHandler, and the calls that are about threads.
use nach_osx.Prelude.{leb, ◌==◌, if◌then◌else◌, Outcome, ok, abort, ◌>>=◌, ℕ, ◌+◌, ◌%◌, ◌&&◌, List}
use nach_osx.Words.{word_size}
use nach_osx.Translate.{ExceptionType, syscall_exception}
use nach_osx.Execution.{pc_reg, next_pc_reg, ret_addr_reg}
use nach_osx.OpenFilesTable.{add_thread}
use nach_osx.UserState.{init_registers}
use nach_osx.SystemCalls.{
  Host, System, finish, yield, fork, exec, other_exception, get_reg, set_reg, returned, request,
}
use nach_osx.SystemCalls.Files.{
  reply, nachos_create, nachos_open, nachos_write, nachos_read, nachos_close,
}
use nach_osx.SystemCalls.Sockets.{nachos_socket, nachos_connect, nachos_bind}

module _ {H : Type 0} where
  -- Finish does not return, so that interrupt->Halt() behind it is not reached.
  pub nachos_halt : System H → Outcome (System H)
  nachos_halt s = ok (request finish s)

  -- Nor is returnFromSystemCall.
  pub nachos_exit : System H → Outcome (System H)
  nachos_exit s = ok (request finish s)

  pub nachos_exec : System H → Outcome (System H)
  nachos_exec s = do file_name ← get_reg s 4; reply (request yield (request (exec file_name) s)) 0

  pub nachos_join : System H → Outcome (System H)
  nachos_join s = returned s

  pub nachos_fork : System H → Outcome (System H)
  nachos_fork s = do function ← get_reg s 4; returned (request (fork function) s)

  pub nachos_yield : System H → Outcome (System H)
  nachos_yield s = returned (request yield s)

  -- What ForkAux does before the new thread runs the program from `p` on.
  pub fork_aux : ℕ → ℕ → System H → Outcome (System H)
  fork_aux num_pages p s = do
    c ← init_registers num_pages s.cpu
    let s₁ : System H = record s { cpu = c; open_files = add_thread s.open_files }
    s₂ ← set_reg s₁ ret_addr_reg 4
    s₃ ← set_reg s₂ pc_reg p
    set_reg s₃ next_pc_reg ((p + 4) % word_size)

-- The numbers of syscall.h.
pub data SystemCall : Type 0 where
  sc_halt sc_exit sc_exec sc_join sc_create sc_open sc_read sc_write : SystemCall
  sc_close sc_fork sc_yield sc_socket sc_connect sc_bind : SystemCall
  empty_body unexpected : SystemCall

-- The inner switch. The calls on semaphores, locks and conditions, 11 to 23, and Listen, Accept and
-- Shutdown, 33 to 35, have empty bodies.
pub system_call : ℕ → SystemCall
system_call code =
    if code == 0
    then sc_halt
    else if code == 1
    then sc_exit
    else if code == 2
    then sc_exec
    else if code == 3
    then sc_join
    else if code == 4
    then sc_create
    else if code == 5
    then sc_open
    else if code == 6
    then sc_read
    else if code == 7
    then sc_write
    else if code == 8
    then sc_close
    else if code == 9
    then sc_fork
    else if code == 10
    then sc_yield
    else if leb 11 code && leb code 23
    then empty_body
    else if code == 30
    then sc_socket
    else if code == 31
    then sc_connect
    else if code == 32
    then sc_bind
    else if leb 33 code && leb code 35
    then empty_body
    else unexpected

-- `fuel` bounds the loop of Create, and `char_buffer` is what the local variable of Open holds at first.
module _ {H : Type 0} (host : Host H) (fresh : ℕ → List ℕ) (fuel char_buffer : ℕ) where
  pub call : SystemCall → System H → Outcome (System H)
  call sc_halt s = nachos_halt s
  call sc_exit s = nachos_exit s
  call sc_exec s = nachos_exec s
  call sc_join s = nachos_join s
  call sc_create s = nachos_create host fresh fuel s
  call sc_open s = nachos_open host fresh char_buffer s
  call sc_read s = nachos_read host fresh s
  call sc_write s = nachos_write host fresh s
  call sc_close s = nachos_close host fresh s
  call sc_fork s = nachos_fork s
  call sc_yield s = nachos_yield s
  call sc_socket s = nachos_socket host fresh s
  call sc_connect s = nachos_connect host fresh s
  call sc_bind s = nachos_bind host fresh s
  call empty_body s = ok s
  call unexpected s = abort

  pub exception_handler : ExceptionType → System H → Outcome (System H)
  exception_handler syscall_exception s = do code ← get_reg s 2; call (system_call code) s
  exception_handler which s = do
    _ ← get_reg s 2
    c ← other_exception which s.cpu
    ok (record s { cpu = c })
