-- ===== src/Examples/Objects.antt =====
-- A file of the compiler with four bytes of code and three of data.
use nach_osx.Prelude.{replicate, ok, abort, ℕ, ◌≡◌, refl, inl, inr, List, [], ◌∷◌, ◌++◌, arith}
use nach_osx.VirtualMemory.{Segment, NoffHeader, Executable}
use nach_osx.CString.{strncmp_eq}
use nach_osx.Coff.{SectionHeader, is_text, Output, convert, convert_sections}
use nach_osx.Coff.Segments.{Holds, SameBytes, NoBytes, data_section, bss_section}
use nach_osx.Coff.Conversion.{sections_of, HeaderOf, IsCoff, convert-Holds}
use nach_osx.Coff.Contiguous.{IsBss, convert_sections_contiguous}

abbrev word : ℕ → List ℕ
word b = b ∷ 0 ∷ 0 ∷ 0 ∷ []

abbrev section : List ℕ → ℕ → ℕ → ℕ → List ℕ
section name address size place =
    name ++ (word address ++ (word address ++ (word size ++ (word place ++ replicate 16 0))))

abbrev object : List ℕ
object =
    (0x62 ∷ 1 ∷ 2 ∷ 0 ∷ replicate 16 0)
    ++ ((7 ∷ 1 ∷ replicate 54 0)
        ++ (section (46 ∷ 116 ∷ 101 ∷ 120 ∷ 116 ∷ 0 ∷ 0 ∷ 0 ∷ []) 0 4 156
            ++ (section (46 ∷ 100 ∷ 97 ∷ 116 ∷ 97 ∷ 0 ∷ 0 ∷ 0 ∷ []) 4 3 160
                ++ (9 ∷ 8 ∷ 7 ∷ 6 ∷ 5 ∷ 4 ∷ 3 ∷ []))))

abbrev any_segment : Segment
any_segment = record { virtual_addr = 77; in_file_addr = 78; size = 79 }

abbrev any_header : NoffHeader
any_header = record {
  noff_magic = 1;
  code = any_segment;
  init_data = any_segment;
  uninit_data = any_segment;
}

object-IsCoff : IsCoff object
object-IsCoff = record { mipsel = refl; program = refl; headers = omega arith }

convert-Holds_example :
    (exe : Executable) × (convert any_header object ≡ ok exe)
    × HeaderOf exe
    × Holds (SameBytes object exe.bytes) is_text (sections_of object) exe.header.code
    × Holds (SameBytes object exe.bytes) data_section (sections_of object) exe.header.init_data
    × Holds NoBytes bss_section (sections_of object) exe.header.uninit_data
unfolding strncmp_eq
convert-Holds_example =
    convert-Holds any_header object object-IsCoff (
      inr
        (refl, inl (refl, omega arith, inr (refl, inr (refl, inl (refl, refl, omega arith, tt))))))

abbrev bss : SectionHeader
bss = record {
  s_name = 46 ∷ 98 ∷ 115 ∷ 115 ∷ 0 ∷ 0 ∷ 0 ∷ 0 ∷ [];
  s_paddr = 100;
  s_size = 20;
  s_scnptr = 0;
}

abbrev sbss : SectionHeader
sbss = record {
  s_name = 46 ∷ 115 ∷ 98 ∷ 115 ∷ 115 ∷ 0 ∷ 0 ∷ 0 ∷ [];
  s_paddr = 120;
  s_size = 4;
  s_scnptr = 0;
}

bss-IsBss : IsBss bss
unfolding strncmp_eq
bss-IsBss = record { full = refl; no_text = refl; no_data = refl; bss = refl }

sbss-IsBss : IsBss sbss
unfolding strncmp_eq
sbss-IsBss = record { full = refl; no_text = refl; no_data = refl; bss = refl }

abbrev no_sections : Output
no_sections = record {
  noff = record any_header { uninit_data = record any_segment { size = 0 } };
  in_noff_file = 40;
  written = [];
}

convert_sections_contiguous_example : convert_sections object (bss ∷ sbss ∷ []) no_sections ≡ abort
convert_sections_contiguous_example =
    convert_sections_contiguous object bss sbss [] no_sections bss-IsBss sbss-IsBss refl refl
