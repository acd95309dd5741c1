-- ===== src/Translate/Entries.antt =====
-- Searching the TLB or the page table, and using the entry.
use nach_osx.Translate.{
  page_size, num_phys_pages, memory_size, tlb_size, ExceptionType, no_exception,
  page_fault_exception, read_only_exception, bus_error_exception, address_error_exception,
  TranslationEntry, Machine, no_entry, Located, fault, in_page_table, in_tlb, find_in_tlb,
  find_in_page_table, locate, touched, use_entry, set_entry, entry_of,
}
use nach_osx.Prelude.{
  leb, ◌==◌, lt→ltb, Bool-cases, length, get_or, set, ok, ℕ, zero, suc, ◌+◌, ◌*◌, ◌≤◌, ◌<◌, ◌≡◌,
  refl, ap, ◌⊎◌, inl, inr, Bool, true, false, ◌&&◌, Option, none, some, List, [], ◌∷◌, arith,
}

-- A machine has a TLB of its size or a page table of its size, and not both.
abbrev pub OneTable : Option (List TranslationEntry) → Option (List TranslationEntry) → ℕ → Type 0
OneTable none none size = false ≡ true
OneTable none (some pages) size = length pages ≡ size
OneTable (some entries) none size = length entries ≡ tlb_size
OneTable (some entries) (some pages) size = false ≡ true

pub record IsMachine (m : Machine) : Type 0 where
  pub table : OneTable m.tlb m.page_table m.page_table_size
  pub memory : length m.main_memory ≡ memory_size

-- The entry at place `i` of the table that is there is a valid one for the page.
abbrev pub Maps :
    Option (List TranslationEntry)
    → Option (List TranslationEntry)
    → ℕ
    → ℕ
    → ℕ
    → TranslationEntry
    → Type 0
Maps none pages size vpn i e = (i ≡ vpn) × (vpn < size) × (entry_of pages i ≡ e) × (e.valid ≡ true)
Maps (some entries) pages size vpn i e =
    (i < tlb_size) × (get_or entries i no_entry ≡ e) × (e.valid ≡ true) × (e.virtual_page ≡ vpn)

abbrev pub MapsPage : Machine → ℕ → ℕ → TranslationEntry → Type 0
MapsPage m vpn i e = Maps m.tlb m.page_table m.page_table_size vpn i e

-- How the search for a page ends.
pub data Search (tlb pages : Option (List TranslationEntry)) (size vpn : ℕ) : Located → Type 0 where
  not_mapped :
      (e : ExceptionType)
      → (e ≡ page_fault_exception) ⊎ (e ≡ address_error_exception)
      → ((i : ℕ) (entry : TranslationEntry) → ¬ Maps tlb pages size vpn i entry)
      → Search tlb pages size vpn (fault e)
  page :
      Maps tlb pages size vpn vpn (entry_of pages vpn)
      → Search tlb pages size vpn (in_page_table vpn)
  cached :
      (i : ℕ) → Maps tlb pages size vpn i (entry_of tlb i) → Search tlb pages size vpn (in_tlb i)

abbrev hits : List TranslationEntry → ℕ → ℕ → Bool
hits entries vpn i =
    (get_or entries i no_entry).valid && ((get_or entries i no_entry).virtual_page == vpn)

find_in_tlb_lem :
    (n i : ℕ) (entries : List TranslationEntry) (vpn : ℕ)
    → i + n ≡ tlb_size
    → length entries ≡ tlb_size
    → ((j : ℕ) → j < i → hits entries vpn j ≡ false)
    → ((find_in_tlb n i entries vpn ≡ ok (fault page_fault_exception))
        × ((j : ℕ) → j < tlb_size → hits entries vpn j ≡ false))
      ⊎ ((j : ℕ) × (j < tlb_size)
          × (hits entries vpn j ≡ true)
          × (find_in_tlb n i entries vpn ≡ ok (in_tlb j)))
unfolding find_in_tlb
find_in_tlb_lem zero i entries vpn h k before = inl (refl, λ j lt. before j (omega arith))
find_in_tlb_lem (suc n) i entries vpn h k before = elim (Bool-cases (hits entries vpn i)) [
  | inl hit ↦ inr (i, omega arith, hit, rw (lt→ltb i (length entries) (omega arith), hit))
  | inr miss ↦
      elim (find_in_tlb_lem n (i + 1) entries vpn (omega arith) k (λ j lt.
        elim (Bool-cases (i == j)) [
          | inl same ↦ ground arith
          | inr other ↦ before j (ground arith)
        ])) [
          | inl (e, none_hit) ↦
              inl (rw (lt→ltb i (length entries) (omega arith), miss, e), none_hit)
          | inr (j, lt, hit, e) ↦
              inr (j, lt, hit, rw (lt→ltb i (length entries) (omega arith), miss, e))
        ]
]

pub locate_lem :
    (tlb pages : Option (List TranslationEntry)) (size vpn : ℕ)
    → OneTable tlb pages size
    → (place : Located) × (locate tlb pages size vpn ≡ ok place) × Search tlb pages size vpn place
unfolding locate find_in_page_table
locate_lem none none size vpn one = cc
locate_lem (some entries) (some pages) size vpn one = cc
locate_lem none (some pages) size vpn one = elim (Bool-cases (leb size vpn)) [
  | inl past ↦ (
    fault address_error_exception,
    rw past,
    not_mapped _ (inr refl) (λ i entry maps. ground arith),
  )
  | inr inside ↦ elim (Bool-cases (get_or pages vpn no_entry).valid) [
    | inl valid ↦ (
      in_page_table vpn,
      rw (inside, lt→ltb vpn (length pages) (ground arith), valid),
      page (refl, ground arith, refl, valid),
    )
    | inr invalid ↦ (
      fault page_fault_exception,
      rw (inside, lt→ltb vpn (length pages) (ground arith), invalid),
      not_mapped _ (inl refl) (λ i entry maps. cc),
    )
  ]
]
locate_lem (some entries) none size vpn one =
    elim (find_in_tlb_lem tlb_size 0 entries vpn refl one (λ j lt. absurd (omega arith))) [
      | inl (e, none_hit) ↦
          (_, e, not_mapped _ (inl refl) (λ i entry maps. ground (arith, none_hit i)))
      | inr (j, lt, hit, e) ↦ (_, e, cached j (lt, refl, ground arith, ground arith))
    ]

pub set-get_or : {A : Type 0} (xs : List A) (i : ℕ) (d : A) → set xs i (get_or xs i d) ≡ xs
set-get_or [] i d = refl
set-get_or (x ∷ xs) zero d = refl
set-get_or (x ∷ xs) (suc i) d = ap (λ ys. x ∷ ys) (set-get_or xs i d)

set_entry-entry_of :
    (table : Option (List TranslationEntry)) (i : ℕ) → set_entry table i (entry_of table i) ≡ table
set_entry-entry_of none i = refl
set_entry-entry_of (some entries) i = ap some (set-get_or entries i no_entry)

-- How the part behind the search ends.
pub data Used (e : TranslationEntry) (offset size : ℕ) (writing : Bool)
    : ExceptionType → ℕ → TranslationEntry → Type 0 where
  kept : e.read_only ≡ true → writing ≡ true → Used e offset size writing read_only_exception 0 e
  framed : num_phys_pages ≤ e.physical_page → Used e offset size writing bus_error_exception 0 e
  reached :
      (physical : ℕ)
      → (e.read_only && writing) ≡ false
      → physical ≡ e.physical_page * page_size + offset
      → physical + size ≤ memory_size
      → Used e offset size writing no_exception physical (touched e writing)

pub use_entry_lem :
    (e : TranslationEntry) (offset size : ℕ) (writing : Bool)
    → offset + size ≤ page_size
    → (x : ExceptionType) × (a : ℕ) × (e' : TranslationEntry) × (use_entry e offset size writing
        ≡ ok (x, a, e'))
      × Used e offset size writing x a e'
unfolding use_entry
use_entry_lem e offset size writing fits = elim (Bool-cases (e.read_only && writing)) [
  | inl guarded ↦ (_, _, _, rw guarded, kept (ground (arith, guarded)) (ground (arith, guarded)))
  | inr open_to ↦ elim (Bool-cases (leb num_phys_pages e.physical_page)) [
    | inl outside ↦ (_, _, _, rw (open_to, outside), framed (ground (arith, outside)))
    | inr inside ↦
        let below : e.physical_page < num_phys_pages = ground (arith, inside) in
        let last : e.physical_page * page_size + offset + size ≤ memory_size = omega arith in
        (_, _, _, ground (arith, open_to, inside, last), reached _ open_to refl last)
  ]
]
