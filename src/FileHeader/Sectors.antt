-- ===== src/FileHeader/Sectors.antt =====
-- What it means that a list of sectors was taken from the map of free sectors.
use nach_osx.Prelude.{
  ◌==◌, Bool-cases, length, get_or, ℤ, pos, minus_one, ℕ, ◌+◌, ◌<◌, ◌≡◌, refl, ◌∙◌, ok, lt→ltb, ◌*◌,
  ◌/◌, inl, inr, Bool, true, false, ◌||◌, List, [], ◌∷◌, arith,
}
use nach_osx.FileHeader.{FileHeader, sector_size, byte_to_sector}
use nach_osx.BitMap.{BitMap}
use nach_osx.BitMap.Laws.{is_marked, IsValid, Updates}
use nach_osx.BitMap.Count.{free_bits, free_bits-mark}

abbrev pub has : ℕ → List ℕ → Bool
has j [] = false
has j (s ∷ ss) = (s == j) || has j ss

abbrev pub Distinct : List ℕ → Type 0
Distinct [] = Unit {0}
Distinct (s ∷ ss) = (has s ss ≡ false) × Distinct ss

-- `m'` is `m` with the distinct, so far free sectors `ss` marked and no others.
pub record Allocated (m : BitMap) (ss : List ℕ) (m' : BitMap) : Type 0 where
  pub valid : IsValid m'
  pub same_size : m'.num_bits ≡ m.num_bits
  pub fresh : (j : ℕ) → has j ss ≡ true → (j < m.num_bits) × (is_marked m j ≡ false)
  pub distinct : Distinct ss
  pub bits : (j : ℕ) → is_marked m' j ≡ (has j ss || is_marked m j)
  pub counted : free_bits m ≡ length ss + free_bits m'

pub Allocated-nil : (m : BitMap) → IsValid m → Allocated m [] m
Allocated-nil m v = record {
  valid = v;
  same_size = refl;
  fresh = λ j h. cc;
  distinct = tt;
  bits = λ j. refl;
  counted = omega arith;
}

pub Allocated-cons :
    {m m₁ m' : BitMap} (s : ℕ) {ss : List ℕ}
    → s < m.num_bits
    → is_marked m s ≡ false
    → Updates m s true m₁
    → Allocated m₁ ss m'
    → Allocated m (s ∷ ss) m'
Allocated-cons {m} {m₁} s {ss} lt free u a = record {
  valid = a.valid;
  same_size = a.same_size ∙ u.same_size;
  fresh = λ j h. elim (Bool-cases (s == j)) [
    | inl same ↦ ground arith
    | inr other ↦ ground (arith, a.fresh j, u.bits j, u.same_size)
  ];
  distinct = (
    elim (Bool-cases (has s ss)) [
      | inl again ↦ ground (arith, a.fresh s again, u.bits s)
      | inr once ↦ once
    ],
    a.distinct,
  );
  bits = λ j. ground (arith, a.bits j, u.bits j);
  counted = omega (arith, a.counted, free_bits-mark s lt free u);
}

-- The table `ds` has the sectors `ss` from place `i` on.
abbrev pub Holds : List ℤ → ℕ → List ℕ → Type 0
Holds ds i [] = Unit {0}
Holds ds i (s ∷ ss) = (get_or ds i minus_one ≡ pos s) × Holds ds (i + 1) ss

-- The sector of a whole number of sectors.
pub byte_to_sector_lem :
    (h : FileHeader) (i s : ℕ)
    → i < length h.data_sectors
    → get_or h.data_sectors i minus_one ≡ pos s
    → byte_to_sector h (i * sector_size) ≡ ok (pos s)
unfolding byte_to_sector
byte_to_sector_lem h i s inside held =
    let e : i * sector_size / sector_size ≡ i = omega arith in
    rw (e, lt→ltb i (length h.data_sectors) inside, held) refl
