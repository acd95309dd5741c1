-- ===== src/Translate/Repeated.antt =====
-- A second translation of the same address, behind a write, ends at the same place.
use nach_osx.Prelude.{
  ◌==◌, ==_iff, Bool-cases, length, get_or, set, length-set, get_or-set_self, get_or-set_ne, ok,
  ok-injective, ◌>>=◌, >>=-eq-ok, ℕ, zero, suc, ◌+◌, ◌/◌, ◌%◌, ◌<◌, ◌≡◌, refl, sym, ap, ◌∙◌, subst,
  inl, inr, true, false, Option, none, some, List, arith,
}
use nach_osx.Translate.{
  page_size, tlb_size, no_exception, TranslationEntry, Machine, no_entry, Located, in_page_table,
  in_tlb, find_in_tlb, find_in_page_table, locate, touched, use_entry, translate_located,
  misaligned, translate,
}
use nach_osx.Translate.Entries.{OneTable, IsMachine, Search, not_mapped, page, cached, locate_lem}

use_entry-use_entry :
    (e e' : TranslationEntry) (offset size p : ℕ)
    → use_entry e offset size true ≡ ok (no_exception, p, e')
    → (e' ≡ touched e true)
      × (use_entry e' offset size false ≡ ok (no_exception, p, touched e' false))
unfolding use_entry
use_entry-use_entry e e' offset size p h = ground arith

-- Entries that differ in their use and dirty bits only.
abbrev SameEntries : List TranslationEntry → List TranslationEntry → Type 0
SameEntries entries entries' =
    (length entries' ≡ length entries)
    × ((j : ℕ) → (get_or entries' j no_entry).valid ≡ (get_or entries j no_entry).valid)
    × ((j : ℕ)
        → (get_or entries' j no_entry).virtual_page ≡ (get_or entries j no_entry).virtual_page)

touched-SameEntries :
    (entries : List TranslationEntry) (i : ℕ)
    → i < length entries
    → SameEntries entries (set entries i (touched (get_or entries i no_entry) true))
touched-SameEntries entries i lt = (
  length-set entries i e,
  λ j. elim (Bool-cases (i == j)) [
    | inl same ↦
        let is : i ≡ j = (==_iff i j).0 same in
        subst (λ k. (get_or (set entries i e) k no_entry).valid ≡ (get_or entries k no_entry).valid)
          is (ap (λ x. x.valid) (get_or-set_self entries i e no_entry lt))
    | inr other ↦
        ap (λ x. x.valid) (get_or-set_ne entries i j e no_entry (λ q. cc ((==_iff i j).1 q)))
  ],
  λ j. elim (Bool-cases (i == j)) [
    | inl same ↦
        let is : i ≡ j = (==_iff i j).0 same in
        subst
          (λ k.
            (get_or (set entries i e) k no_entry).virtual_page
            ≡ (get_or entries k no_entry).virtual_page)
          is (ap (λ x. x.virtual_page) (get_or-set_self entries i e no_entry lt))
    | inr other ↦
        ap (λ x. x.virtual_page) (get_or-set_ne entries i j e no_entry (λ q. cc ((==_iff i j).1 q)))
  ],
)
  where
    e : TranslationEntry
    e = touched (get_or entries i no_entry) true

find_in_tlb-SameEntries :
    (n i : ℕ) (entries entries' : List TranslationEntry) (vpn : ℕ)
    → SameEntries entries entries'
    → find_in_tlb n i entries' vpn ≡ find_in_tlb n i entries vpn
unfolding find_in_tlb
find_in_tlb-SameEntries zero i entries entries' vpn same = refl
find_in_tlb-SameEntries (suc n) i entries entries' vpn same =
    rw (same.0, same.1 i, same.2 i, find_in_tlb-SameEntries n (i + 1) entries entries' vpn same)
      refl

find_in_page_table-SameEntries :
    (pages pages' : List TranslationEntry) (size vpn : ℕ)
    → SameEntries pages pages'
    → find_in_page_table pages' size vpn ≡ find_in_page_table pages size vpn
unfolding find_in_page_table
find_in_page_table-SameEntries pages pages' size vpn same = rw (same.0, same.1 vpn) refl

module _ (memory' : List ℕ) (size_of_table address size p : ℕ) where
  -- A read of the address in a machine with other bytes in its memory ends at `p`.
  abbrev Reads : Machine → Type 0
  Reads m =
      (m'' : Machine) × ((locate m.tlb m.page_table m.page_table_size (address / page_size)
          >>= (λ place.
              translate_located (record m { main_memory = memory' }) place (address % page_size)
                size false))
        ≡ ok (no_exception, p, m''))
      × (m''.main_memory ≡ memory')

  abbrev machine :
      List ℕ → Option (List TranslationEntry) → Option (List TranslationEntry) → Machine
  machine memory tlb pages = record {
    main_memory = memory;
    tlb = tlb;
    page_table = pages;
    page_table_size = size_of_table;
  }

  module _ (memory : List ℕ) (m' : Machine) where
    again_page :
        (pages : List TranslationEntry)
        → length pages ≡ size_of_table
        → address / page_size < size_of_table
        → find_in_page_table pages size_of_table (address / page_size)
          ≡ ok (in_page_table (address / page_size))
        → translate_located
            (machine memory none (some pages))
            (in_page_table (address / page_size))
            (address % page_size)
            size
            true
          ≡ ok (no_exception, p, m')
        → Reads m'
    unfolding locate translate_located
    again_page pages one lt found runs =
        let vpn = address / page_size in
        let e = get_or pages vpn no_entry in
        let ((x, a, e'), e₁, e₂) =
          >>=-eq-ok (use_entry e (address % page_size) size true) _ _ runs in
        let ends = ok-injective e₂ in
        let pages' = set pages vpn e' in
        let used : use_entry e (address % page_size) size true ≡ ok (no_exception, p, e') =
          e₁ ∙ (λ i. ok ((ends i).0, (ends i).1, e')) in
        let (touch, next) = use_entry-use_entry e e' (address % page_size) size p used in
        let same : SameEntries pages pages' =
          subst (λ x'. SameEntries pages (set pages vpn x')) (sym touch)
            (touched-SameEntries pages vpn (omega (arith, one, lt))) in
        subst Reads (λ i. (ends i).2)
          (
            machine memory' none (some (set pages' vpn (touched e' false))),
            rw
                (
                  find_in_page_table-SameEntries pages pages' size_of_table vpn same,
                  found,
                  get_or-set_self pages vpn e' no_entry (omega (arith, one, lt)),
                  next,
                )
                refl,
            refl,
          )

    again_cached :
        (entries : List TranslationEntry) (j : ℕ)
        → length entries ≡ tlb_size
        → j < tlb_size
        → find_in_tlb tlb_size 0 entries (address / page_size) ≡ ok (in_tlb j)
        → translate_located
            (machine memory (some entries) none)
            (in_tlb j)
            (address % page_size)
            size
            true
          ≡ ok (no_exception, p, m')
        → Reads m'
    unfolding locate translate_located
    again_cached entries j one lt found runs =
        let e = get_or entries j no_entry in
        let ((x, a, e'), e₁, e₂) =
          >>=-eq-ok (use_entry e (address % page_size) size true) _ _ runs in
        let ends = ok-injective e₂ in
        let entries' = set entries j e' in
        let used : use_entry e (address % page_size) size true ≡ ok (no_exception, p, e') =
          e₁ ∙ (λ i. ok ((ends i).0, (ends i).1, e')) in
        let (touch, next) = use_entry-use_entry e e' (address % page_size) size p used in
        let same : SameEntries entries entries' =
          subst (λ x'. SameEntries entries (set entries j x')) (sym touch)
            (touched-SameEntries entries j (omega (arith, one, lt))) in
        subst Reads (λ i. (ends i).2)
          (
            machine memory' (some (set entries' j (touched e' false))) none,
            rw
                (
                  find_in_tlb-SameEntries tlb_size 0 entries entries' (address / page_size) same,
                  found,
                  get_or-set_self entries j e' no_entry (omega (arith, one, lt)),
                  next,
                )
                refl,
            refl,
          )

    again :
        (tlb pages : Option (List TranslationEntry)) (place : Located)
        → OneTable tlb pages size_of_table
        → locate tlb pages size_of_table (address / page_size) ≡ ok place
        → Search tlb pages size_of_table (address / page_size) place
        → translate_located (machine memory tlb pages) place (address % page_size) size true
          ≡ ok (no_exception, p, m')
        → Reads m'
    unfolding locate translate_located
    again tlb pages place one found (not_mapped e (inl is) none_maps) runs =
        cc (ok-injective runs, is)
    again tlb pages place one found (not_mapped e (inr is) none_maps) runs =
        cc (ok-injective runs, is)
    again none none place one found (page maps) runs = cc
    again none (some entries) place one found (page maps) runs =
        again_page entries one maps.1 found runs
    again (some entries) none place one found (page maps) runs = cc
    again (some entries) (some more) place one found (page maps) runs = cc
    again none none place one found (cached j maps) runs = cc
    again none (some entries) place one found (cached j maps) runs = cc
    again (some entries) none place one found (cached j maps) runs =
        again_cached entries j one maps.0 found runs
    again (some entries) (some more) place one found (cached j maps) runs = cc

-- Where the address of a write was translated, the address of a read of the same place is translated
-- too, to the same physical address, whatever the memory holds by then.
pub translate-translate :
    (m m' : Machine) (address size p : ℕ) (memory' : List ℕ)
    → IsMachine m
    → translate m address size true ≡ ok (no_exception, p, m')
    → (m'' : Machine) × (translate (record m' { main_memory = memory' }) address size false
        ≡ ok (no_exception, p, m''))
      × (m''.main_memory ≡ memory')
unfolding translate
translate-translate m m' address size p memory' v runs =
    elim (Bool-cases (misaligned address size)) [
      | inl off ↦ cc (ok-injective (rw off at runs))
      | inr aligned ↦
          let (place, found, search) =
            locate_lem m.tlb m.page_table m.page_table_size (address / page_size) v.table in
          let (m'', reads, kept) =
            again memory' m.page_table_size address size p m.main_memory m' m.tlb m.page_table place
              v.table found search (rw (aligned, found) at runs) in
          (m'', rw aligned reads, kept)
    ]
