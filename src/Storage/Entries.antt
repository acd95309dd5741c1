-- ===== src/Storage/Entries.antt =====
-- The bytes of a table of directory entries are read as the same table.
use nach_osx.Prelude.{
  take-append, drop-append, ◌==◌, if◌then◌else◌, length, length-append, ℕ, zero, suc, ◌+◌, ◌*◌, ◌≡◌,
  refl, ap, ◌∙◌, Bool, true, false, not, List, [], ◌∷◌, arith,
}
use nach_osx.Words.{int_word, word_int}
use nach_osx.Directory.{DirectoryEntry, file_name_max_len}
use nach_osx.OpenFile.Headers.{IsInt, word_int-int_word, int_word_bound, from_bytes-to_bytes}
use nach_osx.Storage.{entry_size, entry_bytes, read_entry, table_bytes, read_table}

-- The array of characters has its size, and the sector is an int.
pub record IsEntry (e : DirectoryEntry) : Type 0 where
  pub size : length e.name ≡ file_name_max_len + 1
  pub int : IsInt e.sector

abbrev pub AreEntries : List DirectoryEntry → Type 0
AreEntries [] = Unit {0}
AreEntries (e ∷ es) = IsEntry e × AreEntries es

length-entry_bytes :
    (padding : List ℕ) (e : DirectoryEntry)
    → length padding ≡ 5
    → IsEntry e
    → length (entry_bytes padding e) ≡ entry_size
unfolding entry_bytes
length-entry_bytes (a ∷ b ∷ c ∷ d ∷ f ∷ []) e five v =
    omega (arith, length-append e.name (d ∷ f ∷ []), v.size)
length-entry_bytes _ e five v = absurd (omega arith)

flag_lem : (b : Bool) → not ((if b then 1 else 0) == 0) ≡ b
flag_lem true = refl
flag_lem false = refl

read_entry-entry_bytes :
    (padding : List ℕ) (e : DirectoryEntry)
    → length padding ≡ 5
    → IsEntry e
    → read_entry (entry_bytes padding e) ≡ e
unfolding read_entry entry_bytes
read_entry-entry_bytes (a ∷ b ∷ c ∷ d ∷ f ∷ []) e five v = λ i. record {
  in_use = flag_lem e.in_use i;
  sector =
      (ap word_int (from_bytes-to_bytes (int_word e.sector) (int_word_bound e.sector v.int))
          ∙ word_int-int_word e.sector v.int)
        i;
  name = take-append (file_name_max_len + 1) e.name (d ∷ f ∷ []) v.size i;
}
read_entry-entry_bytes _ e five v = absurd (omega arith)

module _ (padding : ℕ → List ℕ) (five : (i : ℕ) → length (padding i) ≡ 5) where
  pub length-table_bytes :
      (i : ℕ) (es : List DirectoryEntry)
      → AreEntries es
      → length (table_bytes padding i es) ≡ length es * entry_size
  unfolding table_bytes
  length-table_bytes i [] v = refl
  length-table_bytes i (e ∷ es) v = omega (
    arith,
    length-append (entry_bytes (padding i) e) (table_bytes padding (i + 1) es),
    length-entry_bytes (padding i) e (five i) v.0,
    length-table_bytes (i + 1) es v.1,
  )

  pub read_table-table_bytes :
      (i n : ℕ) (es : List DirectoryEntry)
      → length es ≡ n
      → AreEntries es
      → read_table n (table_bytes padding i es) ≡ es
  unfolding read_table table_bytes
  read_table-table_bytes i zero [] len v = refl
  read_table-table_bytes i zero (e ∷ es) len v = absurd (omega arith)
  read_table-table_bytes i (suc n) [] len v = absurd (omega arith)
  read_table-table_bytes i (suc n) (e ∷ es) len v =
      let size = length-entry_bytes (padding i) e (five i) v.0 in
      let rest = table_bytes padding (i + 1) es in
      rw
        (
          take-append entry_size (entry_bytes (padding i) e) rest size,
          drop-append entry_size (entry_bytes (padding i) e) rest size,
          read_table-table_bytes (i + 1) n es (omega arith) v.1,
        )
        (ap (λ x. x ∷ es) (read_entry-entry_bytes (padding i) e (five i) v.0))
