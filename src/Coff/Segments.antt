-- ===== src/Coff/Segments.antt =====
-- The segments of a NOFF file and the sections that they come from.
use nach_osx.Prelude.{
  ◌||◌, ◌&&◌, not, inl, inr, ◌==◌, ◌==◌, length, take, drop, length-take, length-drop, ℕ, zero, suc,
  ◌+◌, ◌≤◌, ◌≡◌, refl, sym, ap, ◌∙◌, ◌⊎◌, Bool, true, false, List, [], ◌∷◌, ◌++◌, arith,
}
use nach_osx.VirtualMemory.{Segment}
use nach_osx.Coff.{SectionHeader, is_text, is_data, is_bss}

abbrev pub Inside : List ℕ → SectionHeader → Type 0
Inside input h = h.s_scnptr + h.s_size ≤ length input

-- What the tool can convert: sections that are empty, code, one section of data and one without data. The
-- two arguments are whether there may still be data and a section without data.
abbrev pub Convertible : List ℕ → Bool → Bool → List SectionHeader → Type 0
Convertible input data_left bss_left [] = Unit {0}
Convertible input data_left bss_left (h ∷ hs) =
    (((h.s_size == 0) ≡ true) × Convertible input data_left bss_left hs)
    ⊎ (((h.s_size == 0) ≡ false)
        × (((is_text h ≡ true) × Inside input h × Convertible input data_left bss_left hs)
            ⊎ ((is_text h ≡ false)
                × (((is_data h ≡ true)
                      × (data_left ≡ true)
                      × Inside input h
                      × Convertible input false bss_left hs)
                    ⊎ ((is_data h ≡ false)
                        × (is_bss h ≡ true)
                        × (bss_left ≡ true)
                        × Convertible input data_left false hs)))))

abbrev pub Among : SectionHeader → List SectionHeader → Type 0
Among h [] = ⊥
Among h (x ∷ xs) = (h ≡ x) ⊎ Among h xs

-- The sections as the loop takes them: data only where it is no code, and so on.
abbrev pub data_section : SectionHeader → Bool
data_section h = not (is_text h) && is_data h

abbrev pub bss_section : SectionHeader → Bool
bss_section h = not (is_text h || is_data h) && is_bss h

-- The segment is one of the sections, not empty and of the kind `kind`, with its address and its size, and
-- `Kept` holds of the two; or it is empty, and then so is every section of that kind.
pub data Holds (Kept : SectionHeader → Segment → Type 0) (kind : SectionHeader → Bool)
    (hs : List SectionHeader) (segment : Segment) : Type 0 where
  no_bytes :
      segment.size ≡ 0
      → ((h : SectionHeader) → Among h hs → kind h ≡ true → h.s_size ≡ 0)
      → Holds Kept kind hs segment
  is_section :
      (h : SectionHeader)
      → Among h hs
      → kind h ≡ true
      → segment.virtual_addr ≡ h.s_paddr
      → segment.size ≡ h.s_size
      → Kept h segment
      → Holds Kept kind hs segment

-- The bytes of the segment in the file are those of the section in the input.
pub record SameBytes (input file : List ℕ) (h : SectionHeader) (segment : Segment) : Type 0 where
  pub bytes : take h.s_size (drop segment.in_file_addr file) ≡ take h.s_size (drop h.s_scnptr input)
  pub all : length (take h.s_size (drop h.s_scnptr input)) ≡ h.s_size

abbrev pub NoBytes : SectionHeader → Segment → Type 0
NoBytes h segment = Unit {0}

take-front : (n : ℕ) (xs ys : List ℕ) → length (take n xs) ≡ n → take n (xs ++ ys) ≡ take n xs
take-front zero xs ys len = refl
take-front (suc n) [] ys len = absurd (omega arith)
take-front (suc n) (x ∷ xs) ys len = ap (λ l. x ∷ l) (take-front n xs ys (omega arith))

pub take-drop-front :
    (n a : ℕ) (xs ys : List ℕ)
    → length (take n (drop a xs)) ≡ n
    → take n (drop a (xs ++ ys)) ≡ take n (drop a xs)
take-drop-front n zero xs ys len = take-front n xs ys len
take-drop-front zero (suc a) [] ys len = refl
take-drop-front (suc n) (suc a) [] ys len = absurd (omega arith)
take-drop-front n (suc a) (x ∷ xs) ys len = take-drop-front n a xs ys len

pub section_bytes :
    (input : List ℕ) (h : SectionHeader)
    → Inside input h
    → length (take h.s_size (drop h.s_scnptr input)) ≡ h.s_size
section_bytes input h inside =
    omega (arith, length-take h.s_size (drop h.s_scnptr input), length-drop h.s_scnptr input)

-- One more section that is not of this kind, or is empty.
pub Holds-next :
    (Kept : SectionHeader → Segment → Type 0) (kind : SectionHeader → Bool) (h : SectionHeader)
    (hs : List SectionHeader) (segment : Segment)
    → (kind h ≡ true → h.s_size ≡ 0)
    → Holds Kept kind hs segment
    → Holds Kept kind (h ∷ hs) segment
Holds-next Kept kind h hs segment nothing (no_bytes e all) = no_bytes e every
  where
    every : (x : SectionHeader) → Among x (h ∷ hs) → kind x ≡ true → x.s_size ≡ 0
    every x (inl same) is = ap (λ y. y.s_size) same ∙ nothing (ap kind (sym same) ∙ is)
    every x (inr x_in) is = all x x_in is
Holds-next Kept kind h hs segment nothing (is_section x among is place size kept) =
    is_section x (inr among) is place size kept
