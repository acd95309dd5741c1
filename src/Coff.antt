-- ===== src/Coff.antt =====
-- bin/coff2noff.c, with bin/coff.h: a COFF file of the compiler becomes a NOFF file of the kernel.
--
-- The input is the list of its bytes, and `abort` is the exit after the output has been removed. The two
-- files can be opened and the output can be written. No file is longer than 2^31 bytes, so that a size that
-- is negative as an int is one that the input does not have. What is printed is left out.
pub mod Segments
pub mod Layout
pub mod Conversion
pub mod Contiguous
use nach_osx.Prelude.{
  leb, ◌==◌, if◌then◌else◌, length, take, drop, Outcome, ok, abort, ◌>>=◌, ◌>>◌, check, ℕ, zero,
  suc, ◌+◌, ◌*◌, Bool, not, ◌||◌, List, [], ◌∷◌, ◌++◌,
}
use nach_osx.Words.{to_bytes, from_bytes}
use nach_osx.CString.{strncmp_eq}
use nach_osx.VirtualMemory.{Segment, NoffHeader, Executable, noff_magic_number}

-- MIPSELMAGIC and OMAGIC
abbrev pub mipsel_magic : ℕ
mipsel_magic = 0x162

abbrev pub omagic : ℕ
omagic = 0x107

-- sizeof(filehdr), sizeof(aouthdr), sizeof(scnhdr) and sizeof(NoffHeader)
abbrev pub file_header_size : ℕ
file_header_size = 20

abbrev pub system_header_size : ℕ
system_header_size = 56

abbrev pub section_header_size : ℕ
section_header_size = 40

abbrev pub noff_header_size : ℕ
noff_header_size = 40

pub record SectionHeader : Type 0 where
  pub s_name : List ℕ
  pub s_paddr : ℕ
  pub s_size : ℕ
  pub s_scnptr : ℕ

abbrev pub read_section : List ℕ → SectionHeader
read_section bytes = record {
  s_name = take 8 bytes;
  s_paddr = from_bytes (take 4 (drop 8 bytes));
  s_size = from_bytes (take 4 (drop 16 bytes));
  s_scnptr = from_bytes (take 4 (drop 20 bytes));
}

abbrev pub read_sections : ℕ → List ℕ → List SectionHeader
read_sections zero bytes = []
read_sections (suc n) bytes =
    read_section (take section_header_size bytes) ∷ read_sections n (drop section_header_size bytes)

-- lseek and Read of the input.
pub read_input : List ℕ → ℕ → ℕ → Outcome (List ℕ)
read_input input position n =
    if leb (position + n) (length input) then ok (take n (drop position input)) else abort

-- !strcmp(s_name, name), where the name has fewer characters than s_name.
abbrev pub is_named : SectionHeader → List ℕ → Bool
is_named h name = strncmp_eq (length name + 1) h.s_name name

abbrev pub is_text : SectionHeader → Bool
is_text h = is_named h (46 ∷ 116 ∷ 101 ∷ 120 ∷ 116 ∷ [])

abbrev pub is_data : SectionHeader → Bool
is_data h =
    is_named h (46 ∷ 100 ∷ 97 ∷ 116 ∷ 97 ∷ []) || is_named h (46 ∷ 114 ∷ 100 ∷ 97 ∷ 116 ∷ 97 ∷ [])

abbrev pub is_bss : SectionHeader → Bool
is_bss h = is_named h (46 ∷ 98 ∷ 115 ∷ 115 ∷ []) || is_named h (46 ∷ 115 ∷ 98 ∷ 115 ∷ 115 ∷ [])

-- noffH, inNoffFile, and the bytes written behind the header.
pub record Output : Type 0 where
  pub noff : NoffHeader
  pub in_noff_file : ℕ
  pub written : List ℕ

pub write_bytes_of : Output → NoffHeader → ℕ → List ℕ → Output
write_bytes_of o noff size buffer = record {
  noff = noff;
  in_noff_file = o.in_noff_file + size;
  written = o.written ++ buffer;
}

abbrev pub segment_of : SectionHeader → Output → Segment
segment_of h o = record { virtual_addr = h.s_paddr; in_file_addr = o.in_noff_file; size = h.s_size }

pub convert_text : List ℕ → SectionHeader → Output → Outcome Output
unfolding read_input write_bytes_of
convert_text input h o = do
  buffer ← read_input input h.s_scnptr h.s_size
  ok (write_bytes_of o (record o.noff { code = segment_of h o }) h.s_size buffer)

pub convert_data : List ℕ → SectionHeader → Output → Outcome Output
unfolding read_input write_bytes_of
convert_data input h o = if not (o.noff.init_data.size == 0) then abort else do
  buffer ← read_input input h.s_scnptr h.s_size
  ok (write_bytes_of o (record o.noff { init_data = segment_of h o }) h.s_size buffer)

-- The .bss and .sbss sections are to be one segment.
pub convert_bss : SectionHeader → Output → Outcome Output
convert_bss h o =
    let found = o.noff.uninit_data in
    if not (found.size == 0)
    then if h.s_paddr == found.virtual_addr + found.size
      then abort
      else ok (record o {
        noff = record o.noff { uninit_data = record found { size = found.size + h.s_size } };
      })
    else ok (record o {
      noff = record o.noff {
        uninit_data = record found { virtual_addr = h.s_paddr; size = h.s_size };
      };
    })

-- The body of the loop over the sections.
pub convert_section : List ℕ → SectionHeader → Output → Outcome Output
unfolding convert_text convert_data convert_bss
convert_section input h o =
    if h.s_size == 0
    then ok o
    else if is_text h
    then convert_text input h o
    else if is_data h
    then convert_data input h o
    else if is_bss h
    then convert_bss h o
    else abort

pub convert_sections : List ℕ → List SectionHeader → Output → Outcome Output
unfolding convert_section
convert_sections input [] o = ok o
convert_sections input (h ∷ hs) o = do o' ← convert_section input h o; convert_sections input hs o'

abbrev pub segment_bytes : Segment → List ℕ
segment_bytes s = to_bytes 4 s.virtual_addr ++ (to_bytes 4 s.in_file_addr ++ to_bytes 4 s.size)

abbrev pub noff_bytes : NoffHeader → List ℕ
noff_bytes n =
    to_bytes 4 n.noff_magic
    ++ (segment_bytes n.code ++ (segment_bytes n.init_data ++ segment_bytes n.uninit_data))

-- noffH on the stack, with what is set before the loop.
pub new_noff : NoffHeader → NoffHeader
new_noff memory = record {
  noff_magic = noff_magic_number;
  code = record memory.code { size = 0 };
  init_data = record memory.init_data { size = 0 };
  uninit_data = record memory.uninit_data { size = 0 };
}

-- main, once both files are open: the output as the kernel finds it, its header and all its bytes.
pub convert : NoffHeader → List ℕ → Outcome Executable
unfolding read_input convert_sections new_noff
convert memory input = do
  fileh ← read_input input 0 file_header_size
  check (from_bytes (take 2 fileh) == mipsel_magic)
  systemh ← read_input input file_header_size system_header_size
  check (from_bytes (take 2 systemh) == omagic)
  let numsections = from_bytes (take 2 (drop 2 fileh))
  sections ←
      read_input input (file_header_size + system_header_size) (numsections * section_header_size)
  o ←
      convert_sections input (read_sections numsections sections)
        (record { noff = new_noff memory; in_noff_file = noff_header_size; written = [] })
  ok (record { header = o.noff; bytes = noff_bytes o.noff ++ o.written })
