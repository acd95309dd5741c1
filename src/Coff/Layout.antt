-- ===== src/Coff/Layout.antt =====
-- The segments of a file that was converted hold the bytes of its sections.
use nach_osx.Prelude.{
  inl, drop-append, length, take, drop, take-all, length-append, append_assoc, Outcome, ok, ℕ, ◌+◌,
  ◌≤◌, ◌≡◌, refl, sym, ap, ◌∙◌, subst, Bool, true, false, List, ◌∷◌, ◌++◌, arith,
}
use nach_osx.VirtualMemory.{Segment, noff_magic_number}
use nach_osx.Coff.{
  noff_header_size, SectionHeader, read_input, is_text, is_data, is_bss, Output, write_bytes_of,
  segment_of, convert_text, convert_data, convert_bss,
}
use nach_osx.Coff.Segments.{
  Inside, Holds, no_bytes, is_section, SameBytes, NoBytes, data_section, bss_section,
  take-drop-front, section_bytes, Holds-next,
}

module _ (input : List ℕ) where
  -- More bytes behind the file.
  Holds-append :
      (kind : SectionHeader → Bool) (hs : List SectionHeader) (file more : List ℕ)
      (segment : Segment)
      → Holds (SameBytes input file) kind hs segment
      → Holds (SameBytes input (file ++ more)) kind hs segment
  Holds-append kind hs file more segment (no_bytes e all) = no_bytes e all
  Holds-append kind hs file more segment (is_section h among is place size same) =
      is_section h among is place size (record {
        bytes =
            take-drop-front h.s_size segment.in_file_addr file more
              (ap length same.bytes ∙ same.all)
            ∙ same.bytes;
        all = same.all;
      })

  -- The segment is there whatever the bytes of the header are.
  abbrev pub InFile : (SectionHeader → Bool) → List SectionHeader → List ℕ → Segment → Type 0
  InFile kind hs written segment =
      (front : List ℕ)
      → length front ≡ noff_header_size
      → Holds (SameBytes input (front ++ written)) kind hs segment

  -- What the loop has put into the output, from the sections `hs`.
  pub record Laid (hs : List SectionHeader) (o : Output) : Type 0 where
    pub position : o.in_noff_file ≡ noff_header_size + length o.written
    pub code : InFile is_text hs o.written o.noff.code
    pub data_held : InFile data_section hs o.written o.noff.init_data
    pub bss_held : Holds NoBytes bss_section hs o.noff.uninit_data
    pub magic : o.noff.noff_magic ≡ noff_magic_number

  grown :
      (kind : SectionHeader → Bool) (h : SectionHeader) (hs : List SectionHeader) (o : Output)
      (more : List ℕ) (segment : Segment)
      → (kind h ≡ true → h.s_size ≡ 0)
      → InFile kind hs o.written segment
      → InFile kind (h ∷ hs) (o.written ++ more) segment
  grown kind h hs o more segment nothing held front len =
      subst (λ f. Holds (SameBytes input f) kind (h ∷ hs) segment)
        (append_assoc front o.written more)
        (Holds-append kind (h ∷ hs) (front ++ o.written) more segment
          (Holds-next _ kind h hs segment nothing (held front len)))

  placed :
      (kind : SectionHeader → Bool) (o : Output) (h : SectionHeader) (hs : List SectionHeader)
      → Laid hs o
      → Inside input h
      → kind h ≡ true
      → InFile kind (h ∷ hs) (o.written ++ take h.s_size (drop h.s_scnptr input)) (segment_of h o)
  placed kind o h hs laid inside is front len =
      let bytes = take h.s_size (drop h.s_scnptr input) in
      let size = section_bytes input h inside in
      let here : length (front ++ o.written) ≡ o.in_noff_file =
        omega (arith, length-append front o.written, laid.position) in
      is_section h (inl refl) is refl refl (record {
        bytes =
            ap (λ f. take h.s_size (drop o.in_noff_file f))
              (sym (append_assoc front o.written bytes))
            ∙ (ap (take h.s_size) (drop-append o.in_noff_file (front ++ o.written) bytes here)
                ∙ take-all h.s_size bytes size);
        all = size;
      })

  pub read_input-inside :
      (position n : ℕ)
      → position + n ≤ length input
      → read_input input position n ≡ ok (take n (drop position input))
  unfolding read_input
  read_input-inside position n inside = ground arith

  -- A step over one section.
  abbrev pub Step : List SectionHeader → Outcome Output → Bool → Bool → Type 0
  Step hs run data_left bss_left =
      (o' : Output) × (run ≡ ok o')
      × Laid hs o'
      × (data_left ≡ true → o'.noff.init_data.size ≡ 0)
      × (bss_left ≡ true → o'.noff.uninit_data.size ≡ 0)

  -- An empty section changes nothing.
  pub Laid-next :
      (h : SectionHeader) (hs : List SectionHeader) (o : Output)
      → h.s_size ≡ 0
      → Laid hs o
      → Laid (h ∷ hs) o
  Laid-next h hs o empty laid = record {
    position = laid.position;
    code = λ front len. Holds-next _ is_text h hs o.noff.code (λ _. empty) (laid.code front len);
    data_held = λ front len.
        Holds-next _ data_section h hs o.noff.init_data (λ _. empty) (laid.data_held front len);
    bss_held = Holds-next _ bss_section h hs o.noff.uninit_data (λ _. empty) laid.bss_held;
    magic = laid.magic;
  }

  module _ (hs : List SectionHeader) (o : Output) (laid : Laid hs o) (h : SectionHeader)
      (data_left bss_left : Bool) (no_data : data_left ≡ true → o.noff.init_data.size ≡ 0)
      (no_bss : bss_left ≡ true → o.noff.uninit_data.size ≡ 0) where
    position_after :
        (n : ℕ) (more : List ℕ)
        → length more ≡ n
        → o.in_noff_file + n ≡ noff_header_size + length (o.written ++ more)
    position_after n more len = omega (arith, length-append o.written more, laid.position)

    pub convert_text-Laid :
        is_text h ≡ true
        → Inside input h
        → Step (h ∷ hs) (convert_text input h o) data_left bss_left
    unfolding convert_text write_bytes_of
    convert_text-Laid is inside =
        let bytes = take h.s_size (drop h.s_scnptr input) in
        (
          write_bytes_of o (record o.noff { code = segment_of h o }) h.s_size bytes,
          rw (read_input-inside h.s_scnptr h.s_size inside) refl,
          record {
            position = position_after h.s_size bytes (section_bytes input h inside);
            code = placed is_text o h hs laid inside is;
            data_held =
                grown data_section h hs o bytes o.noff.init_data (λ e. cc (rw is at e))
                  laid.data_held;
            bss_held =
                Holds-next _ bss_section h hs o.noff.uninit_data (λ e. cc (rw is at e))
                  laid.bss_held;
            magic = laid.magic;
          },
          no_data,
          no_bss,
        )

    pub convert_data-Laid :
        is_text h ≡ false
        → is_data h ≡ true
        → data_left ≡ true
        → Inside input h
        → Step (h ∷ hs) (convert_data input h o) false bss_left
    unfolding convert_data write_bytes_of
    convert_data-Laid no_text is left inside =
        let bytes = take h.s_size (drop h.s_scnptr input) in
        (
          write_bytes_of o (record o.noff { init_data = segment_of h o }) h.s_size bytes,
          rw (no_data left, read_input-inside h.s_scnptr h.s_size inside) refl,
          record {
            position = position_after h.s_size bytes (section_bytes input h inside);
            code = grown is_text h hs o bytes o.noff.code (λ e. cc) laid.code;
            data_held = placed data_section o h hs laid inside (rw (no_text, is) refl);
            bss_held =
                Holds-next _ bss_section h hs o.noff.uninit_data (λ e. cc (rw (no_text, is) at e))
                  laid.bss_held;
            magic = laid.magic;
          },
          λ no. cc,
          no_bss,
        )

    pub convert_bss-Laid :
        is_text h ≡ false
        → is_data h ≡ false
        → is_bss h ≡ true
        → bss_left ≡ true
        → Step (h ∷ hs) (convert_bss h o) data_left false
    unfolding convert_bss
    convert_bss-Laid no_text not_data is left = (
      record o {
        noff = record o.noff {
          uninit_data = record o.noff.uninit_data { virtual_addr = h.s_paddr; size = h.s_size };
        };
      },
      rw (no_bss left) refl,
      record {
        position = laid.position;
        code = λ front len. Holds-next _ is_text h hs o.noff.code (λ e. cc) (laid.code front len);
        data_held = λ front len.
            Holds-next _ data_section h hs o.noff.init_data (λ e. cc (rw (no_text, not_data) at e))
              (laid.data_held front len);
        bss_held = is_section h (inl refl) (rw (no_text, not_data, is) refl) refl refl tt;
        magic = laid.magic;
      },
      no_data,
      λ no. cc,
    )
