-- ===== src/CString.antt =====
-- The functions of <string.h> that filesys/directory.cc calls. A string is the bytes in front of its
-- terminating 0; past the end of the list the byte is 0.
use nach_osx.Prelude.{
  ◌==◌, if◌then◌else◌, length, ℕ, zero, suc, ◌≤◌, ◌≡◌, refl, ap, Bool, true, false, List, [], ◌∷◌,
  arith,
}

-- strncmp(s, t, n) == 0
unfoldable pub strncmp_eq : ℕ → List ℕ → List ℕ → Bool
strncmp_eq zero s t = true
strncmp_eq (suc n) [] [] = true
strncmp_eq (suc n) [] (d ∷ t) = d == 0
strncmp_eq (suc n) (c ∷ s) [] = c == 0
strncmp_eq (suc n) (c ∷ s) (d ∷ t) =
    let rest = strncmp_eq n s t in if c == d then (if c == 0 then true else rest) else false

-- strncpy(dst, src, n), into the bytes `dst` of an array: at the end of `src` it goes on with zeros.
unfoldable pub strncpy : ℕ → List ℕ → List ℕ → List ℕ
strncpy zero dst src = dst
strncpy (suc n) [] src = []
strncpy (suc n) (b ∷ dst) [] = 0 ∷ strncpy n dst []
strncpy (suc n) (b ∷ dst) (c ∷ src) = c ∷ strncpy n dst (if c == 0 then [] else src)

strncmp_eq-zeros :
    (n : ℕ) (dst t : List ℕ)
    → n ≤ length dst
    → strncmp_eq n (strncpy n dst []) t ≡ strncmp_eq n [] t
unfolding strncmp_eq strncpy
strncmp_eq-zeros zero dst t h = refl
strncmp_eq-zeros (suc n) [] t h = absurd (omega arith)
strncmp_eq-zeros (suc n) (b ∷ dst) [] h = ground arith
strncmp_eq-zeros (suc n) (b ∷ dst) (d ∷ t) h = ground arith

-- A copy compares with any string as its source does.
pub strncmp_eq-strncpy :
    (n : ℕ) (dst src t : List ℕ)
    → n ≤ length dst
    → strncmp_eq n (strncpy n dst src) t ≡ strncmp_eq n src t
unfolding strncmp_eq strncpy
strncmp_eq-strncpy zero dst src t h = refl
strncmp_eq-strncpy (suc n) [] src t h = absurd (omega arith)
strncmp_eq-strncpy (suc n) (b ∷ dst) [] [] h = ground arith
strncmp_eq-strncpy (suc n) (b ∷ dst) [] (d ∷ t) h = ground arith
strncmp_eq-strncpy (suc n) (b ∷ dst) (c ∷ src) [] h = refl
strncmp_eq-strncpy (suc n) (b ∷ dst) (c ∷ src) (d ∷ t) h =
    ground (arith, strncmp_eq-strncpy n dst src t)

pub strncmp_eq_refl : (n : ℕ) (s : List ℕ) → strncmp_eq n s s ≡ true
unfolding strncmp_eq
strncmp_eq_refl zero s = refl
strncmp_eq_refl (suc n) [] = refl
strncmp_eq_refl (suc n) (c ∷ s) = ground (arith, strncmp_eq_refl n s)

pub strncmp_eq_sym : (n : ℕ) (s t : List ℕ) → strncmp_eq n s t ≡ strncmp_eq n t s
unfolding strncmp_eq
strncmp_eq_sym zero s t = refl
strncmp_eq_sym (suc n) [] [] = refl
strncmp_eq_sym (suc n) [] (d ∷ t) = refl
strncmp_eq_sym (suc n) (c ∷ s) [] = refl
strncmp_eq_sym (suc n) (c ∷ s) (d ∷ t) = ground (arith, strncmp_eq_sym n s t)

pub strncmp_eq_trans :
    (n : ℕ) (s t r : List ℕ)
    → strncmp_eq n s t ≡ true
    → strncmp_eq n t r ≡ true
    → strncmp_eq n s r ≡ true
unfolding strncmp_eq
strncmp_eq_trans zero s t r p q = refl
strncmp_eq_trans (suc n) [] [] [] p q = refl
strncmp_eq_trans (suc n) [] [] (e ∷ r) p q = q
strncmp_eq_trans (suc n) [] (d ∷ t) [] p q = refl
strncmp_eq_trans (suc n) [] (d ∷ t) (e ∷ r) p q = ground arith
strncmp_eq_trans (suc n) (c ∷ s) [] [] p q = p
strncmp_eq_trans (suc n) (c ∷ s) [] (e ∷ r) p q = ground arith
strncmp_eq_trans (suc n) (c ∷ s) (d ∷ t) [] p q = ground arith
strncmp_eq_trans (suc n) (c ∷ s) (d ∷ t) (e ∷ r) p q = ground (arith, strncmp_eq_trans n s t r)

pub length-strncpy : (n : ℕ) (dst src : List ℕ) → length (strncpy n dst src) ≡ length dst
unfolding strncpy
length-strncpy zero dst src = refl
length-strncpy (suc n) [] src = refl
length-strncpy (suc n) (b ∷ dst) [] = ap suc (length-strncpy n dst [])
length-strncpy (suc n) (b ∷ dst) (c ∷ src) =
    ap suc (length-strncpy n dst (if c == 0 then [] else src))
