-- ===== src/Coff/Contiguous.antt =====
-- Two sections without data.
use nach_osx.Prelude.{◌==◌, ==_iff, abort, ℕ, ◌+◌, ◌≡◌, refl, true, false, List, ◌∷◌}
use nach_osx.Coff.{
  SectionHeader, is_text, is_data, is_bss, Output, convert_bss, convert_section, convert_sections,
}

-- The section is .bss or .sbss, and is not empty.
pub record IsBss (h : SectionHeader) : Type 0 where
  pub full : (h.s_size == 0) ≡ false
  pub no_text : is_text h ≡ false
  pub no_data : is_data h ≡ false
  pub bss : is_bss h ≡ true

convert_section-bss :
    (input : List ℕ) (h : SectionHeader) (o : Output)
    → IsBss h
    → convert_section input h o ≡ convert_bss h o
unfolding convert_section
convert_section-bss input h o v = rw (v.full, v.no_text, v.no_data, v.bss) refl

-- Two sections without data that follow each other in memory make the tool exit, at any place among the
-- sections where no section without data has come before.
pub convert_sections_contiguous :
    (input : List ℕ) (h h' : SectionHeader) (rest : List SectionHeader) (o : Output)
    → IsBss h
    → IsBss h'
    → o.noff.uninit_data.size ≡ 0
    → h'.s_paddr ≡ h.s_paddr + h.s_size
    → convert_sections input (h ∷ h' ∷ rest) o ≡ abort
unfolding convert_sections convert_bss
convert_sections_contiguous input h h' rest o v v' first follows =
    let at_end : (h'.s_paddr == h.s_paddr + h.s_size) ≡ true =
      (==_iff h'.s_paddr (h.s_paddr + h.s_size)).1 follows in
    let joined : Output = record o {
      noff = record o.noff {
        uninit_data = record o.noff.uninit_data { virtual_addr = h.s_paddr; size = h.s_size };
      };
    } in
    rw
      (
        convert_section-bss input h o v,
        first,
        convert_section-bss input h' joined v',
        v.full,
        at_end,
      )
      refl
