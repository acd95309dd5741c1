-- ===== src/Coff/Conversion.antt =====
-- The loop over the sections, and the tool as a whole.
use nach_osx.Prelude.{
  ap, ==_iff, ◌⊎◌, inl, inr, Bool, ◌==◌, length, take, drop, ok, ℕ, ◌+◌, ◌*◌, ◌≤◌, ◌≡◌, refl, inl,
  inr, Bool, true, false, List, [], ◌∷◌, ◌++◌, arith,
}
use nach_osx.Words.{to_bytes, from_bytes}
use nach_osx.VirtualMemory.{Segment, NoffHeader, Executable, noff_magic_number}
use nach_osx.Coff.{
  is_text, mipsel_magic, omagic, file_header_size, system_header_size, section_header_size,
  noff_header_size, SectionHeader, read_sections, is_text, Output, convert_section,
  convert_sections, noff_bytes, new_noff, convert,
}
use nach_osx.Coff.Segments.{
  is_section, Convertible, Among, Holds, SameBytes, NoBytes, data_section, bss_section, no_bytes,
}
use nach_osx.Coff.Layout.{
  Laid-next, Laid, read_input-inside, convert_text-Laid, convert_data-Laid, convert_bss-Laid,
}

-- The sections in the order opposite to that of the file.
abbrev pub onto : List SectionHeader → List SectionHeader → List SectionHeader
onto [] seen = seen
onto (h ∷ hs) seen = onto hs (h ∷ seen)

Among-onto :
    (h : SectionHeader) (hs seen : List SectionHeader)
    → Among h hs ⊎ Among h seen
    → Among h (onto hs seen)
Among-onto h [] seen (inl h_in) = absurd h_in
Among-onto h [] seen (inr h_in) = h_in
Among-onto h (x ∷ hs) seen (inl (inl same)) = Among-onto h hs (x ∷ seen) (inr (inl same))
Among-onto h (x ∷ hs) seen (inl (inr h_in)) = Among-onto h hs (x ∷ seen) (inl h_in)
Among-onto h (x ∷ hs) seen (inr h_in) = Among-onto h hs (x ∷ seen) (inr (inr h_in))

onto-Among :
    (h : SectionHeader) (hs seen : List SectionHeader)
    → Among h (onto hs seen)
    → Among h hs ⊎ Among h seen
onto-Among h [] seen h_in = inr h_in
onto-Among h (x ∷ hs) seen h_in = elim (onto-Among h hs (x ∷ seen) h_in) [
  | inl later ↦ inl (inr later)
  | inr (inl same) ↦ inl (inl same)
  | inr (inr before) ↦ inr before
]

-- The order does not matter.
Holds-in_order :
    (Kept : SectionHeader → Segment → Type 0) (kind : SectionHeader → Bool)
    (hs : List SectionHeader) (segment : Segment)
    → Holds Kept kind (onto hs []) segment
    → Holds Kept kind hs segment
Holds-in_order Kept kind hs segment (no_bytes e all) =
    no_bytes e (λ h h_in. all h (Among-onto h hs [] (inl h_in)))
Holds-in_order Kept kind hs segment (is_section h among is place size kept) =
    elim (onto-Among h hs [] among) [
      | inl h_in ↦ is_section h h_in is place size kept
      | inr nowhere ↦ absurd nowhere
    ]

module _ (input : List ℕ) where
  convert_sections-Laid :
      (rest seen : List SectionHeader) (o : Output) (data_left bss_left : Bool)
      → Laid input seen o
      → (data_left ≡ true → o.noff.init_data.size ≡ 0)
      → (bss_left ≡ true → o.noff.uninit_data.size ≡ 0)
      → Convertible input data_left bss_left rest
      → (o' : Output) × (convert_sections input rest o ≡ ok o') × Laid input (onto rest seen) o'
  unfolding convert_sections convert_section
  convert_sections-Laid [] seen o d b laid no_data no_bss can = (o, refl, laid)
  convert_sections-Laid (h ∷ rest) seen o d b laid no_data no_bss (inl (empty, can)) =
      let (o', run, laid') =
        convert_sections-Laid rest (h ∷ seen) o d b
          (Laid-next input h seen o ((==_iff h.s_size 0).0 empty) laid) no_data no_bss can in
      (o', rw empty run, laid')
  convert_sections-Laid (h ∷ rest) seen o d b laid no_data no_bss
        (inr (full, inl (text, inside, can))) =
      let (o₁, e, laid₁, no_data₁, no_bss₁) =
        convert_text-Laid input seen o laid h d b no_data no_bss text inside in
      let (o', run, laid') =
        convert_sections-Laid rest (h ∷ seen) o₁ d b laid₁ no_data₁ no_bss₁ can in
      (o', rw (full, text, e) run, laid')
  convert_sections-Laid (h ∷ rest) seen o d b laid no_data no_bss
        (inr (full, inr (no_text, inl (data_section, left, inside, can)))) =
      let (o₁, e, laid₁, no_data₁, no_bss₁) =
        convert_data-Laid input seen o laid h d b no_data no_bss no_text data_section left inside in
      let (o', run, laid') =
        convert_sections-Laid rest (h ∷ seen) o₁ false b laid₁ no_data₁ no_bss₁ can in
      (o', rw (full, no_text, data_section, e) run, laid')
  convert_sections-Laid (h ∷ rest) seen o d b laid no_data no_bss
        (inr (full, inr (no_text, inr (not_data, bss, left, can)))) =
      let (o₁, e, laid₁, no_data₁, no_bss₁) =
        convert_bss-Laid input seen o laid h d b no_data no_bss no_text not_data bss left in
      let (o', run, laid') =
        convert_sections-Laid rest (h ∷ seen) o₁ d false laid₁ no_data₁ no_bss₁ can in
      (o', rw (full, no_text, not_data, bss, e) run, laid')

abbrev pub section_count : List ℕ → ℕ
section_count input = from_bytes (take 2 (drop 2 (take file_header_size input)))

abbrev pub sections_of : List ℕ → List SectionHeader
sections_of input = read_sections (section_count input) (
    take (section_count input * section_header_size)
      (drop (file_header_size + system_header_size) input))

-- The headers are there, with the numbers of a little-endian MIPS program.
pub record IsCoff (input : List ℕ) : Type 0 where
  pub mipsel : (from_bytes (take 2 (take file_header_size input)) == mipsel_magic) ≡ true
  pub program :
      (from_bytes (take 2 (take system_header_size (drop file_header_size input))) == omagic) ≡ true
  pub headers :
      file_header_size + system_header_size + section_count input * section_header_size
      ≤ length input

-- The word in place `k` of the file.
abbrev WordAt : List ℕ → ℕ → ℕ → Type 0
WordAt file k w = take 4 (drop k file) ≡ to_bytes 4 w

-- The three ints of a segment.
pub record SegmentAt (file : List ℕ) (k : ℕ) (segment : Segment) : Type 0 where
  pub address : WordAt file k segment.virtual_addr
  pub place : WordAt file (k + 4) segment.in_file_addr
  pub size : WordAt file (k + 8) segment.size

-- The file begins with the header.
pub record HeaderOf (exe : Executable) : Type 0 where
  pub magic : WordAt exe.bytes 0 noff_magic_number
  pub code : SegmentAt exe.bytes 4 exe.header.code
  pub init_data : SegmentAt exe.bytes 16 exe.header.init_data
  pub uninit_data : SegmentAt exe.bytes 28 exe.header.uninit_data

segment_at :
    (file : List ℕ) (k : ℕ) (s : Segment)
    → WordAt file k s.virtual_addr
    → WordAt file (k + 4) s.in_file_addr
    → WordAt file (k + 8) s.size
    → SegmentAt file k s
segment_at file k s a b c = record { address = a; place = b; size = c }

-- A file with the headers of a little-endian MIPS program, whose sections are in the file and are code, one
-- section of data at most and one without data at most, or empty, is converted. The output begins with its
-- header as words. In it the code has
-- the address, the size and, at the place that the header says, the bytes of a .text section; it is empty
-- only if all of them are. The same holds of the data and the .data or .rdata section, and, but for the
-- bytes, of the segment without data and the .bss or .sbss section.
pub convert-Holds :
    (memory : NoffHeader) (input : List ℕ)
    → IsCoff input
    → Convertible input true true (sections_of input)
    → (exe : Executable) × (convert memory input ≡ ok exe)
      × HeaderOf exe
      × Holds (SameBytes input exe.bytes) is_text (sections_of input) exe.header.code
      × Holds (SameBytes input exe.bytes) data_section (sections_of input) exe.header.init_data
      × Holds NoBytes bss_section (sections_of input) exe.header.uninit_data
unfolding convert new_noff
convert-Holds memory input coff can =
    let hs = sections_of input in
    let start : Output = record {
      noff = new_noff memory;
      in_noff_file = noff_header_size;
      written = [];
    } in
    let laid : Laid input [] start = record {
      position = refl;
      code = λ front len. no_bytes refl (λ h h_in. absurd h_in);
      data_held = λ front len. no_bytes refl (λ h h_in. absurd h_in);
      bss_held = no_bytes refl (λ h h_in. absurd h_in);
      magic = refl;
    } in
    let (o, run, l) =
      convert_sections-Laid input hs [] start true true laid (λ _. refl) (λ _. refl) can in
    (
      record { header = o.noff; bytes = noff_bytes o.noff ++ o.written },
      rw
          (
            read_input-inside input 0 file_header_size (omega (arith, coff.headers)),
            coff.mipsel,
            read_input-inside input file_header_size system_header_size
                (omega (arith, coff.headers)),
            coff.program,
            read_input-inside input (file_header_size + system_header_size)
                (section_count input * section_header_size) coff.headers,
            run,
          )
          refl,
      (let exe_bytes = noff_bytes o.noff ++ o.written in
          record {
            magic = ap (to_bytes 4) l.magic;
            code = segment_at exe_bytes 4 o.noff.code refl refl refl;
            init_data = segment_at exe_bytes 16 o.noff.init_data refl refl refl;
            uninit_data = segment_at exe_bytes 28 o.noff.uninit_data refl refl refl;
          }),
      Holds-in_order _ is_text hs o.noff.code (l.code (noff_bytes o.noff) refl),
      Holds-in_order _ data_section hs o.noff.init_data (l.data_held (noff_bytes o.noff) refl),
      Holds-in_order _ bss_section hs o.noff.uninit_data l.bss_held,
    )
