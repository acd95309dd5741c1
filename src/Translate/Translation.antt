-- ===== src/Translate/Translation.antt =====
-- `Machine::Translate` on each of its ways out.
use nach_osx.Words.{bit_and-one, bit_and-ones}
use nach_osx.Translate.{
  page_size, num_phys_pages, memory_size, tlb_size, ExceptionType, no_exception,
  page_fault_exception, read_only_exception, bus_error_exception, address_error_exception,
  TranslationEntry, Machine, no_entry, Located, in_page_table, in_tlb, touched, use_entry,
  translate_located, misaligned, translate,
}
use nach_osx.Prelude.{
  Bool-cases, length, get_or, set, length-set, get_or-set_self, ok, ℕ, ◌+◌, ◌*◌, ◌/◌, ◌%◌, ◌≤◌, ◌≡◌,
  refl, ap, ◌∙◌, ◌⊎◌, inl, inr, Bool, true, false, ◌&&◌, Option, none, some, List, arith,
}
use nach_osx.Translate.Entries.{
  OneTable, IsMachine, MapsPage, Search, not_mapped, page, cached, locate_lem, set-get_or, Used,
  kept, framed, reached, use_entry_lem,
}

-- How `Translate` ends. The entry is changed in its use and dirty bits only.
pub data Translated (m : Machine) (address size : ℕ) (writing : Bool)
    : ExceptionType → ℕ → Machine → Type 0 where
  unaligned :
      misaligned address size ≡ true → Translated m address size writing address_error_exception 0 m
  unmapped :
      (e : ExceptionType)
      → (e ≡ page_fault_exception) ⊎ (e ≡ address_error_exception)
      → ((i : ℕ) (entry : TranslationEntry) → ¬ MapsPage m (address / page_size) i entry)
      → Translated m address size writing e 0 m
  protected :
      (i : ℕ) (entry : TranslationEntry)
      → MapsPage m (address / page_size) i entry
      → entry.read_only ≡ true
      → writing ≡ true
      → Translated m address size writing read_only_exception 0 m
  no_frame :
      (i : ℕ) (entry : TranslationEntry)
      → MapsPage m (address / page_size) i entry
      → num_phys_pages ≤ entry.physical_page
      → Translated m address size writing bus_error_exception 0 m
  mapped :
      (i : ℕ) (entry : TranslationEntry) (physical : ℕ) (m' : Machine)
      → MapsPage m (address / page_size) i entry
      → (entry.read_only && writing) ≡ false
      → physical ≡ entry.physical_page * page_size + address % page_size
      → physical + size ≤ memory_size
      → MapsPage m' (address / page_size) i (touched entry writing)
      → m'.main_memory ≡ m.main_memory
      → IsMachine m'
      → Translated m address size writing no_exception physical m'

abbrev Ends : Machine → Located → ℕ → ℕ → Bool → Type 0
Ends m place address size writing =
    (x : ExceptionType) × (a : ℕ) × (m' : Machine) × (translate_located m place
        (address % page_size) size writing
      ≡ ok (x, a, m'))
    × Translated m address size writing x a m'

module _ (memory : List ℕ) (size_of_table address size : ℕ) (writing : Bool)
    (full : length memory ≡ memory_size) (fits : address % page_size + size ≤ page_size) where
  abbrev paged : List TranslationEntry → Machine
  paged pages = record {
    main_memory = memory;
    tlb = none;
    page_table = some pages;
    page_table_size = size_of_table;
  }

  abbrev cached_by : List TranslationEntry → Machine
  cached_by entries = record {
    main_memory = memory;
    tlb = some entries;
    page_table = none;
    page_table_size = size_of_table;
  }

  located_page :
      (pages : List TranslationEntry)
      → length pages ≡ size_of_table
      → MapsPage
          (paged pages)
          (address / page_size)
          (address / page_size)
          (get_or pages (address / page_size) no_entry)
      → Ends (paged pages) (in_page_table (address / page_size)) address size writing
  unfolding translate_located
  located_page pages one maps = finish (use_entry_lem e (address % page_size) size writing fits)
    where
      e : TranslationEntry
      e = get_or pages (address / page_size) no_entry

      unchanged : paged (set pages (address / page_size) e) ≡ paged pages
      unchanged = ap paged (set-get_or pages (address / page_size) no_entry)

      finish :
          (x : ExceptionType) × (a : ℕ) × (e' : TranslationEntry) × (use_entry e
                (address % page_size)
                size
                writing
              ≡ ok (x, a, e'))
            × Used e (address % page_size) size writing x a e'
          → Ends (paged pages) (in_page_table (address / page_size)) address size writing
      finish (x, a, e', runs, kept guarded writes) = (
        x,
        a,
        paged pages,
        rw runs (ap (λ m. ok (read_only_exception, 0, m)) unchanged),
        protected _ e maps guarded writes,
      )
      finish (x, a, e', runs, framed outside) = (
        x,
        a,
        paged pages,
        rw runs (ap (λ m. ok (bus_error_exception, 0, m)) unchanged),
        no_frame _ e maps outside,
      )
      finish (x, a, e', runs, reached physical open_to is last) = (
        x,
        a,
        paged (set pages (address / page_size) e'),
        rw runs,
        mapped _ e physical _ maps open_to is last
            (
              refl,
              maps.1,
              get_or-set_self pages (address / page_size) e' no_entry (omega (arith, maps.1)),
              maps.3,
            )
            refl
            (record { table = length-set pages (address / page_size) e' ∙ one; memory = full }),
      )

  located_cached :
      (entries : List TranslationEntry) (i : ℕ)
      → length entries ≡ tlb_size
      → MapsPage (cached_by entries) (address / page_size) i (get_or entries i no_entry)
      → Ends (cached_by entries) (in_tlb i) address size writing
  unfolding translate_located
  located_cached entries i one maps =
      finish (use_entry_lem e (address % page_size) size writing fits)
    where
      e : TranslationEntry
      e = get_or entries i no_entry

      unchanged : cached_by (set entries i e) ≡ cached_by entries
      unchanged = ap cached_by (set-get_or entries i no_entry)

      finish :
          (x : ExceptionType) × (a : ℕ) × (e' : TranslationEntry) × (use_entry e
                (address % page_size)
                size
                writing
              ≡ ok (x, a, e'))
            × Used e (address % page_size) size writing x a e'
          → Ends (cached_by entries) (in_tlb i) address size writing
      finish (x, a, e', runs, kept guarded writes) = (
        x,
        a,
        cached_by entries,
        rw runs (ap (λ m. ok (read_only_exception, 0, m)) unchanged),
        protected i e maps guarded writes,
      )
      finish (x, a, e', runs, framed outside) = (
        x,
        a,
        cached_by entries,
        rw runs (ap (λ m. ok (bus_error_exception, 0, m)) unchanged),
        no_frame i e maps outside,
      )
      finish (x, a, e', runs, reached physical open_to is last) = (
        x,
        a,
        cached_by (set entries i e'),
        rw runs,
        mapped i e physical _ maps open_to is last
            (maps.0, get_or-set_self entries i e' no_entry (omega (arith, maps.0)), maps.2, maps.3)
            refl (record { table = length-set entries i e' ∙ one; memory = full }),
      )

  located :
      (tlb pages : Option (List TranslationEntry))
      → OneTable tlb pages size_of_table
      → (place : Located) → Search tlb pages size_of_table (address / page_size) place
      → Ends
          (record {
            main_memory = memory;
            tlb = tlb;
            page_table = pages;
            page_table_size = size_of_table;
          })
          place
          address
          size
          writing
  unfolding translate_located
  located tlb pages one place (not_mapped e kind none_maps) =
      (e, 0, _, refl, unmapped e kind none_maps)
  located none none one place (page maps) = cc
  located none (some pages) one place (page maps) = located_page pages one maps
  located (some entries) none one place (page maps) = cc
  located (some entries) (some pages) one place (page maps) = cc
  located none none one place (cached i maps) = cc
  located none (some pages) one place (cached i maps) = cc
  located (some entries) none one place (cached i maps) = located_cached entries i one maps
  located (some entries) (some pages) one place (cached i maps) = cc

-- An access of 1, 2 or 4 bytes that is aligned stays inside its page.
inside_page :
    (address size : ℕ)
    → (size ≡ 1) ⊎ (size ≡ 2) ⊎ (size ≡ 4)
    → misaligned address size ≡ false
    → address % page_size + size ≤ page_size
inside_page address size (inl one) aligned = omega arith
inside_page address size (inr (inl two)) aligned = ground (arith, bit_and-one address)
inside_page address size (inr (inr four)) aligned =
    let (high, split, small) = bit_and-ones 2 address in ground (arith, split)

-- `Translate` of an access of 1, 2 or 4 bytes fails no ASSERT and leaves no table. It refuses what is
-- not aligned, a page that is not mapped, a write to a read-only page and a frame that does not exist,
-- and then changes nothing. Else the address is the frame's with the same offset, the access ends
-- inside the memory, and the entry has its use bit and, for a write, its dirty bit set.
pub translate-Translated :
    (m : Machine) (address size : ℕ) (writing : Bool)
    → IsMachine m
    → (size ≡ 1) ⊎ (size ≡ 2) ⊎ (size ≡ 4)
    → (x : ExceptionType) × (a : ℕ) × (m' : Machine) × (translate m address size writing
        ≡ ok (x, a, m'))
      × Translated m address size writing x a m'
unfolding translate
translate-Translated m address size writing v sizes = elim (Bool-cases (misaligned address size)) [
  | inl off ↦ (address_error_exception, 0, m, rw off, unaligned off)
  | inr aligned ↦
      let (place, e, search) =
        locate_lem m.tlb m.page_table m.page_table_size (address / page_size) v.table in
      let (x, a, m', runs, end) =
        located m.main_memory m.page_table_size address size writing v.memory
          (inside_page address size sizes aligned) m.tlb m.page_table v.table place search in
      (x, a, m', rw (aligned, e) runs, end)
]
