-- ===== src/AddrSpace/Frames.antt =====
-- The loops over the pages of an address space: frames are taken from the map and given back.
use nach_osx.Prelude.{
  length, ok, ℕ, zero, suc, ◌+◌, ◌≤◌, ◌<◌, ◌≡◌, refl, ap, ◌∙◌, true, not, ◌&&◌, some, List, [], ◌∷◌,
  ◌++◌, arith,
}
use nach_osx.BitMap.{BitMap}
use nach_osx.BitMap.Laws.{is_marked, IsValid, clear_lem}
use nach_osx.BitMap.Count.{free_bits, free_bits-mark}
use nach_osx.FileHeader.Sectors.{has, Allocated, Allocated-nil, Allocated-cons}
use nach_osx.FileHeader.Allocation.{find_free}
use nach_osx.Translate.{TranslationEntry}
use nach_osx.AddrSpace.{new_entry, clear_pages, find_pages}

abbrev pub frames : List TranslationEntry → List ℕ
frames [] = []
frames (e ∷ entries) = e.physical_page ∷ frames entries

-- The entries are valid, and for the pages from `page` on in their order.
abbrev pub Numbered : ℕ → List TranslationEntry → Type 0
Numbered page [] = Unit {0}
Numbered page (e ∷ entries) =
    ((e.virtual_page ≡ page) × (e.valid ≡ true)) × Numbered (page + 1) entries

append_snoc :
    (xs : List TranslationEntry) (y : TranslationEntry) (zs : List TranslationEntry)
    → (xs ++ (y ∷ [])) ++ zs ≡ xs ++ (y ∷ zs)
append_snoc [] y zs = refl
append_snoc (x ∷ xs) y zs = ap (λ l. x ∷ l) (append_snoc xs y zs)

append_nil : (xs : List TranslationEntry) → xs ≡ xs ++ []
append_nil [] = refl
append_nil (x ∷ xs) = ap (λ l. x ∷ l) (append_nil xs)

-- With enough clear bits each page gets a frame of its own that was free.
pub find_pages-Allocated :
    (n page : ℕ) (mine : List TranslationEntry) (m : BitMap)
    → IsValid m
    → n ≤ free_bits m
    → (es : List TranslationEntry) × (m' : BitMap) × (find_pages n page mine m
        ≡ ok (some (mine ++ es), m'))
      × Allocated m (frames es) m'
      × (length es ≡ n)
      × Numbered page es
unfolding find_pages
find_pages-Allocated zero page mine m v enough =
    ([], m, ap (λ l. ok (some l, m)) (append_nil mine), Allocated-nil m v, refl, tt)
find_pages-Allocated (suc n) page mine m v enough =
    let (s, m₁, e, lt, free, u) = find_free m v (omega arith) in
    let (es, m', e', a, count, numbered) =
      find_pages-Allocated n (page + 1) (mine ++ (new_entry page s ∷ [])) m₁ u.valid
        (omega (arith, free_bits-mark s lt free u)) in
    (
      new_entry page s ∷ es,
      m',
      rw e (e' ∙ ap (λ l. ok (some l, m')) (append_snoc mine (new_entry page s) es)),
      Allocated-cons s lt free u a,
      ap suc count,
      ((refl, refl), numbered),
    )

-- The frames of the entries are clear, and the other bits are as before.
pub record Cleared (m : BitMap) (ss : List ℕ) (m' : BitMap) : Type 0 where
  pub valid : IsValid m'
  pub same_size : m'.num_bits ≡ m.num_bits
  pub bits : (j : ℕ) → is_marked m' j ≡ (not (has j ss) && is_marked m j)

pub clear_pages-Cleared :
    (es : List TranslationEntry) (m : BitMap)
    → IsValid m
    → ((j : ℕ) → has j (frames es) ≡ true → j < m.num_bits)
    → (m' : BitMap) × (clear_pages es m ≡ ok m') × Cleared m (frames es) m'
unfolding clear_pages
clear_pages-Cleared [] m v inside =
    (m, refl, record { valid = v; same_size = refl; bits = λ j. refl })
clear_pages-Cleared (e ∷ es) m v inside =
    let lt : e.physical_page < m.num_bits = inside e.physical_page (ground arith) in
    let (m₁, e₁, u) = clear_lem m e.physical_page v lt in
    let (m', e', c) =
      clear_pages-Cleared es m₁ u.valid (λ j h. ground (arith, inside j, u.same_size)) in
    (
      m',
      rw e₁ e',
      record {
        valid = c.valid;
        same_size = c.same_size ∙ u.same_size;
        bits = λ j. ground (arith, c.bits j, u.bits j);
      },
    )
