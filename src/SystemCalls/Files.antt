-- ===== src/SystemCalls/Files.antt =====
-- The calls on files: Create, Open, Write, Read and Close.
pub mod Writing
pub mod Console
pub mod Closing
use nach_osx.Prelude.{
  ltb, ◌==◌, if◌then◌else◌, get_or, replicate, take, overlay, ℤ, pos, negsuc, minus_one, int_eq,
  Outcome, ok, overrun, ◌>>=◌, ◌>>◌, ℕ, zero, suc, ◌+◌, ◌-◌, ◌*◌, ◌%◌, max, not, ◌&&◌, ◌||◌, Option,
  none, some, List,
}
use nach_osx.Words.{word_size, is_negative, int_word, word_int}
use nach_osx.OpenFilesTable.{open_file, is_opened, close_file, get_unix_handle}
use nach_osx.SystemCalls.{
  Host, System, new_chars, store_char, store_int, load_char, c_string, get_reg, set_reg, read_user,
  write_user, returned,
}

abbrev pub newline : ℕ
newline = 10

-- FILENAME_MAX of the host's stdio.h
abbrev pub filename_max : ℕ
filename_max = 4096

-- What a result becomes in register 2.
abbrev pub minus_one_word : ℕ
minus_one_word = word_size - 1

-- The value that ReadMem leaves in a variable: the old one if it returns false.
abbrev pub read_into : Option ℕ → ℕ → ℕ
read_into none old = old
read_into (some value) old = value

-- Rounds of `while (i < size)` from 0, for an int.
abbrev pub rounds : ℕ → ℕ
rounds size = if is_negative size then 0 else size

-- bytresRead, as the bound of the loop that copies.
abbrev pub count_of : ℤ → ℕ
count_of (pos n) = n
count_of (negsuc n) = 0

-- Register 2, and back to the program.
module _ {H : Type 0} where
  unfoldable pub reply : System H → ℕ → Outcome (System H)
  reply s value = do s' ← set_reg s 2 value; returned s'

module _ {H : Type 0} (host : Host H) (fresh : ℕ → List ℕ) where
  -- The loop of Create: the name's buffer doubles when it is full but for one character.
  pub create_loop : ℕ → System H → ℕ → ℕ → ℕ → List ℕ → ℕ → Outcome (List ℕ × System H)
  create_loop zero s address position capacity file_name last = overrun
  create_loop (suc fuel) s address position capacity file_name last = do
    let full = position == capacity - 1
    let capacity' = if full then capacity * 2 else capacity
    let buffer = if full then overlay (fresh capacity') 0 (take position file_name) else file_name
    (value, s') ← read_user s (address + position)
    let c = read_into value last
    buffer' ← (if c == 0 then ok buffer else store_char buffer position c)
    let rest = create_loop fuel s' address (position + 1) capacity' buffer' c
    if c == 0 then ok (buffer', s') else rest

  pub nachos_create : ℕ → System H → Outcome (System H)
  nachos_create fuel s = do
    address ← get_reg s 4
    (file_name, s₁) ← create_loop fuel s address 0 200 (fresh 200) 0
    name ← c_string file_name
    let (file_id, h) = host.creat name s₁.host
    reply (record s₁ { host = h }) (int_word file_id)

  -- The loop of Open. The int that ReadMem stores at the one char charBuffer leaves its low byte there;
  -- its other bytes fall on the stack behind charBuffer, which is not part of the model.
  pub open_loop : ℕ → System H → ℕ → ℕ → List ℕ → ℕ → Outcome (List ℕ × System H)
  open_loop zero s address i file_name char_buffer = overrun
  open_loop (suc fuel) s address i file_name char_buffer = do
    (value, s') ← read_user s (address + i)
    let c = read_into value char_buffer % 256
    file_name' ← store_char file_name i c
    let rest = open_loop fuel s' address (i + 1) file_name' c
    if c == 0 then ok (file_name', s') else rest

  -- `char_buffer` is what charBuffer held before it was set.
  pub nachos_open : ℕ → System H → Outcome (System H)
  nachos_open char_buffer s = do
    address ← get_reg s 4
    (file_name, s₁) ←
        open_loop (filename_max + 2) s address 0 (replicate (filename_max + 1) 0) char_buffer
    name ← c_string file_name
    let (fd, h) = host.open_unix name s₁.host
    let s₂ : System H = record s₁ { host = h }
    if int_eq fd minus_one then reply s₂ minus_one_word else do
      (opened, table) ← open_file s₂.open_files fd
      reply (record s₂ { open_files = table }) (int_word opened)

  -- The loop of Write, `n` rounds at most: the index where it stops, and the content.
  unfoldable pub write_loop : ℕ → System H → ℕ → ℕ → List ℕ → Outcome (ℕ × List ℕ × System H)
  write_loop zero s address i content = ok (i, content, s)
  write_loop (suc n) s address i content = do
    (value, s') ← read_user s (address + i)
    content' ← elim value [ none ↦ ok content | some v ↦ store_int content i v ]
    c ← load_char content' i
    let rest = write_loop n s' address (i + 1) content'
    if c == newline then ok (i, content', s') else rest

  -- The switch of Write.
  unfoldable pub write_content : System H → ℕ → List ℕ → ℕ → Outcome (System H)
  write_content s descriptor content size =
      if descriptor == 0
      then reply s minus_one_word
      else if descriptor == 1
      then (do text ← c_string content; reply (record s { host = host.print text s.host }) size)
      else do
        opened ← is_opened s.open_files (word_int descriptor)
        if not opened then reply s minus_one_word else do
          unix_handle ← get_unix_handle s.open_files (word_int descriptor)
          reply (record s { host = host.write_unix unix_handle (take size content) s.host }) size

  unfoldable pub nachos_write : System H → Outcome (System H)
  nachos_write s = do
    address ← get_reg s 4
    size ← get_reg s 5
    descriptor ← get_reg s 6
    content ← new_chars fresh ((size + 1) % word_size)
    (i, content₁, s₁) ← write_loop (rounds size) s address 0 content
    content₂ ← store_char content₁ (i + 1) 0
    write_content s₁ descriptor content₂ size

  -- The loop of Read that copies what was read into the user's memory.
  pub copy_loop : ℕ → ℕ → System H → ℕ → List ℕ → Outcome (System H)
  copy_loop zero i s address content = ok s
  copy_loop (suc n) i s address content = do
    c ← load_char content i
    s' ← write_user s (address + i) c
    copy_loop n (i + 1) s' address content

  -- The do loop of the console: a character above 8, as a signed char, is kept.
  pub console_loop : ℕ → System H → ℕ → ℕ → ℕ → List ℕ → Outcome (ℕ × List ℕ × System H)
  console_loop zero s size position char_buffer content = ok (position, content, s)
  console_loop (suc n) s size position char_buffer content = do
    let (count, bytes, h) = host.read_unix (pos 1) 1 s.host
    let c = get_or bytes 0 char_buffer
    content' ← (if ltb 8 c && ltb c 128 then store_char content position c else ok content)
    let s' : System H = record s { host = h }
    let rest = console_loop n s' size (position + 1) c content'
    if c == 0 then ok (position + 1, content', s') else rest

  -- The copy of the console's content. Its condition reads content[readingIndex] in each round; an index
  -- below strnlen(content, size) is below the size.
  pub console_copy : ℕ → System H → ℕ → ℕ → ℕ → List ℕ → Outcome (ℕ × System H)
  console_copy zero s address size i content = overrun
  console_copy (suc fuel) s address size i content = do
    c ← load_char content i
    let rest = do
      s' ← write_user s (address + i) c
      console_copy fuel s' address size (i + 1) content
    if not (c == 0) || ltb i size then rest else ok (i, s)

  pub read_console : System H → ℕ → ℕ → List ℕ → Outcome (System H)
  read_console s address size content = do
    (position, content₁, s₁) ← console_loop (max 1 size) s size 0 0 content
    content₂ ← (if position == size then ok content₁ else store_char content₁ position newline)
    (i, s₂) ← console_copy (size + 2) s₁ address size 0 content₂
    reply s₂ i

  pub read_file : System H → ℕ → ℕ → ℕ → List ℕ → Outcome (System H)
  read_file s address size descriptor content = do
    opened ← is_opened s.open_files (word_int descriptor)
    if not opened then reply s minus_one_word else do
      unix_handle ← get_unix_handle s.open_files (word_int descriptor)
      let (count, bytes, h) = host.read_unix unix_handle size s.host
      s₁ ← set_reg (record s { host = h }) 2 size
      s₂ ← copy_loop (count_of count) 0 s₁ address (overlay content 0 bytes)
      reply s₂ (int_word count)

  pub nachos_read : System H → Outcome (System H)
  nachos_read s = do
    address ← get_reg s 4
    size ← get_reg s 5
    descriptor ← get_reg s 6
    content ← new_chars fresh size
    if descriptor == 0
        then read_console s address size content
        else if descriptor == 1
        then reply s minus_one_word
        else read_file s address size descriptor content

  pub nachos_close : System H → Outcome (System H)
  nachos_close s = do
    file_id ← get_reg s 4
    (unix_handle, table) ← close_file s.open_files (word_int file_id)
    let s₁ : System H = record s { open_files = table }
    if int_eq unix_handle minus_one then reply s₁ minus_one_word else do
      let (result, h) = host.close_unix unix_handle s₁.host
      reply (record s₁ { host = h }) (if int_eq result (pos 0) then 1 else int_word result)
