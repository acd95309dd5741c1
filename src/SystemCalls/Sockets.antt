-- ===== src/SystemCalls/Sockets.antt =====
-- The calls on sockets: Socket, Connect and Bind.
use nach_osx.Prelude.{
  ◌==◌, if◌then◌else◌, ℤ, int_eq, Outcome, ok, ◌>>=◌, ℕ, zero, suc, ◌+◌, ◌%◌, Bool, false, not,
  ◌||◌, none, some, List, [], ◌∷◌,
}
use nach_osx.Words.{int_word, word_int}
use nach_osx.OpenFilesTable.{open_file, get_unix_handle}
use nach_osx.SystemCalls.{
  Host, System, store_int, load_char, c_string, get_reg, set_reg, read_user, returned,
}

-- machineSockets.find(fd)
pub is_machine_socket : List ℤ → ℤ → Bool
is_machine_socket [] fd = false
is_machine_socket (x ∷ xs) fd = int_eq x fd || is_machine_socket xs fd

module _ {H : Type 0} (host : Host H) (fresh : ℕ → List ℕ) where
  pub nachos_socket : System H → Outcome (System H)
  nachos_socket s = do
    family ← get_reg s 4
    type_of ← get_reg s 5
    let is_six = not (family == 0)
    let (id_socket, h) = host.socket is_six (type_of == 0) s.host
    (fd, table) ← open_file s.open_files id_socket
    s₁ ← set_reg (record s { host = h; open_files = table }) 2 (int_word fd)
    returned (record s₁ {
      machine_sockets = if is_six then fd ∷ s₁.machine_sockets else s₁.machine_sockets;
    })

  -- The loop of Connect over the 40 characters of ip.
  pub connect_loop : ℕ → System H → ℕ → ℕ → List ℕ → Outcome (List ℕ × System H)
  connect_loop zero s address i ip = ok (ip, s)
  connect_loop (suc n) s address i ip = do
    (value, s') ← read_user s (address + i)
    ip' ← elim value [ none ↦ ok ip | some v ↦ store_int ip i v ]
    c ← load_char ip' i
    let rest = connect_loop n s' address (i + 1) ip'
    if c == 0 then ok (ip', s') else rest

  pub nachos_connect : System H → Outcome (System H)
  nachos_connect s = do
    sock_id ← get_reg s 4
    ip_address ← get_reg s 5
    port ← get_reg s 6
    (ip, s₁) ← connect_loop 40 s ip_address 0 (fresh 40)
    fd ← get_unix_handle s₁.open_files (word_int sock_id)
    text ← c_string ip
    let is_six = is_machine_socket s₁.machine_sockets fd
    returned (record s₁ { host = host.connect sock_id is_six text (port % 65536) s₁.host })

  pub nachos_bind : System H → Outcome (System H)
  nachos_bind s = do _ ← get_reg s 4; _ ← get_reg s 5; returned s
