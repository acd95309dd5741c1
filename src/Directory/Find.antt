-- ===== src/Directory/Find.antt =====
-- What Find answers, in terms of the names as text.
use nach_osx.Prelude.{
  ◌==◌, if◌then◌else◌, Bool-cases, length, get_or, ℤ, pos, minus_one, ℕ, zero, suc, ◌+◌, ◌<◌, ◌≡◌,
  refl, sym, ap, ◌∙◌, subst, inl, inr, true, false, List, [], ◌∷◌, arith,
}
use native.Mathlib.Nat.{zero-add}
use nach_osx.CString.{strncmp_eq}
use nach_osx.Directory.{
  DirectoryEntry, Directory, names, no_entry, find_index_loop, find_index, sector_at, find,
}

-- The characters of a string, the first `n` at most: those in front of the terminating 0.
abbrev pub text : ℕ → List ℕ → List ℕ
text zero s = []
text (suc n) [] = []
text (suc n) (c ∷ s) = let rest = text n s in if c == 0 then [] else c ∷ rest

pub text_of_name : List ℕ → List ℕ
text_of_name name = text 9 name

same_text : (n : ℕ) (s t : List ℕ) → strncmp_eq n s t ≡ true → text n s ≡ text n t
unfolding strncmp_eq
same_text zero s t e = refl
same_text (suc n) [] [] e = refl
same_text (suc n) [] (d ∷ t) e = rw e refl
same_text (suc n) (c ∷ s) [] e = rw e refl
same_text (suc n) (c ∷ s) (d ∷ t) e = grind (arith, same_text n s t)

other_text : (n : ℕ) (s t : List ℕ) → text n s ≡ text n t → strncmp_eq n s t ≡ true
unfolding strncmp_eq
other_text zero s t e = refl
other_text (suc n) [] [] e = refl
other_text (suc n) [] (d ∷ t) e = elim (Bool-cases (d == 0)) [
  | inl end ↦ end
  | inr more ↦ cc (rw more at e)
]
other_text (suc n) (c ∷ s) [] e = elim (Bool-cases (c == 0)) [
  | inl end ↦ end
  | inr more ↦ cc (rw more at e)
]
other_text (suc n) (c ∷ s) (d ∷ t) e = grind (arith, other_text n s t)

-- The entry stands for a file of this name: it is in use, and its name is the same text as far as the first
-- nine characters go.
pub IsFile : DirectoryEntry → List ℕ → Type 0
IsFile e name = (e.in_use ≡ true) × (text 9 e.name ≡ text 9 name)

file_lem : (e : DirectoryEntry) (name : List ℕ) → names e name ≡ true → IsFile e name
unfolding IsFile
file_lem e name hit = ground (arith, same_text 9 e.name name)

no_file_lem : (e : DirectoryEntry) (name : List ℕ) → names e name ≡ false → ¬ IsFile e name
unfolding IsFile
no_file_lem e name miss (used, same) = ground (arith, other_text 9 e.name name same)

-- None of the first `n` entries does.
abbrev pub NoneBelow : List DirectoryEntry → List ℕ → ℕ → Type 0
NoneBelow es name n = (j : ℕ) → j < n → ¬ IsFile (get_or es j no_entry) name

next_below :
    (e : DirectoryEntry) (es : List DirectoryEntry) (name : List ℕ) (n : ℕ)
    → ¬ IsFile e name
    → NoneBelow es name n
    → NoneBelow (e ∷ es) name (suc n)
next_below e es name n absent rest zero lt = absent
next_below e es name n absent rest (suc j) lt = rest j (omega arith)

-- What an answer says of the table.
pub data Answers (es : List DirectoryEntry) (name : List ℕ) : ℤ → Type 0 where
  nowhere : NoneBelow es name (length es) → Answers es name minus_one
  first_at :
      (k : ℕ)
      → k < length es
      → IsFile (get_or es k no_entry) name
      → NoneBelow es name k
      → Answers es name (get_or es k no_entry).sector

-- The same of the place, counted from `i`.
data Places (es : List DirectoryEntry) (name : List ℕ) (i : ℕ) (r : ℤ) : Type 0 where
  not_there : NoneBelow es name (length es) → r ≡ minus_one → Places es name i r
  there :
      (k : ℕ)
      → k < length es
      → IsFile (get_or es k no_entry) name
      → NoneBelow es name k
      → r ≡ pos (i + k)
      → Places es name i r

find_index_loop-Places :
    (es : List DirectoryEntry) (i : ℕ) (name : List ℕ)
    → Places es name i (find_index_loop es i name)
unfolding find_index_loop
find_index_loop-Places [] i name = not_there (λ k lt. absurd (omega arith)) refl
find_index_loop-Places (e ∷ es) i name = elim (Bool-cases (names e name)) [
  | inl hit ↦
      there 0 (omega arith) (file_lem e name hit) (λ j lt. absurd (omega arith))
        (rw hit (ap pos (omega arith)))
  | inr miss ↦ elim (find_index_loop-Places es (i + 1) name) [
    | not_there none_of r ↦
        not_there (next_below e es name (length es) (no_file_lem e name miss) none_of) (rw miss r)
    | there k lt is before r ↦
        there (suc k) (omega arith) is (next_below e es name k (no_file_lem e name miss) before)
          (rw miss (r ∙ ap pos (omega arith)))
  ]
]

-- Find answers with the sector of the first entry of the table that is in use and whose name has the same
-- text as the name asked for, up to nine characters, and with -1 where there is none.
pub find-Answers : (d : Directory) (name : List ℕ) → Answers d.table name (find d name)
unfolding find find_index sector_at
find-Answers d name = elim (find_index_loop-Places d.table 0 name) [
  | not_there none_of r ↦ subst (Answers d.table name) (sym (rw r refl)) (nowhere none_of)
  | there k lt is before r ↦
      subst (Answers d.table name) (sym (rw (r, zero-add k) refl)) (first_at k lt is before)
]
