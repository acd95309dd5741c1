-- ===== src/OpenFilesTable/Closing.antt =====
-- `Close`, `isOpened` and `getUnixHandle`, with the handle one past the end of the table.
use nach_osx.Prelude.{
  ◌==◌, if◌then◌else◌, set, length-set, ℤ, pos, negsuc, minus_one, ok, abort, overrun, ℕ, ◌<◌, ◌≡◌,
  refl, ◌∙◌, ◌⊎◌, inl, inr, true, false, not, ◌&&◌, arith,
}
use nach_osx.BitMap.{test}
use nach_osx.BitMap.Laws.{test_lem, clear_lem}
use nach_osx.OpenFilesTable.{
  OpenFilesTable, table_size, get_entry, is_opened, close_file, get_unix_handle,
}
use nach_osx.OpenFilesTable.Start.{is_open, entry, IsTable, get_entry_lem, put_entry_lem, entry-set}

-- `t'` is `t` without handle `i`.
pub record Closed (t : OpenFilesTable) (i : ℕ) (t' : OpenFilesTable) : Type 0 where
  pub table : IsTable t'
  pub usage : t'.usage ≡ t.usage
  pub opened : (j : ℕ) → is_open t' j ≡ (not (i == j) && is_open t j)
  pub entries : (j : ℕ) → entry t' j ≡ (if i == j then minus_one else entry t j)

-- A negative handle, one above tableSize, and one in the table that is not open.
abbrev pub NotInUse : OpenFilesTable → ℤ → Type 0
NotInUse t (negsuc h) = Unit {0}
NotInUse t (pos h) = (table_size < h) ⊎ ((h < table_size) × (is_open t h ≡ false))

module _ (t : OpenFilesTable) (v : IsTable t) where
  test_handle : (i : ℕ) → i < table_size → test t.open_files_map (pos i) ≡ ok (is_open t i)
  test_handle i h = test_lem t.open_files_map i v.valid (omega (arith, v.size))

  -- Closing a handle in use returns its Unix handle, and frees that handle and no other.
  pub close_file-Closed :
      (i : ℕ)
      → i < table_size
      → is_open t i ≡ true
      → (t' : OpenFilesTable) × (close_file t (pos i) ≡ ok (entry t i, t')) × Closed t i t'
  unfolding close_file
  close_file-Closed i h used =
      let (m, e, u) = clear_lem t.open_files_map i v.valid (omega (arith, v.size)) in
      (
        record t { open_files_map = m; open_files = set t.open_files i minus_one },
        ground (
          arith,
          test_handle i h,
          get_entry_lem t i v h,
          e,
          put_entry_lem (record t { open_files_map = m }) i minus_one v.room h,
        ),
        record {
          table = record {
            valid = u.valid;
            size = u.same_size ∙ v.size;
            room = length-set t.open_files i minus_one ∙ v.room;
          };
          usage = refl;
          opened = λ j. ground (arith, u.bits j);
          entries = λ j. entry-set t.open_files i j minus_one (omega (arith, v.room));
        },
      )

  -- For such a handle `Close` returns -1 and changes nothing.
  pub close_file_refused : (h : ℤ) → NotInUse t h → close_file t h ≡ ok (minus_one, t)
  unfolding close_file
  close_file_refused (negsuc h) out = refl
  close_file_refused (pos h) (inl out) = ground arith
  close_file_refused (pos h) (inr (lt, free)) = ground (arith, test_handle h lt)

  -- The guards say `> tableSize` where the last handle is tableSize - 1: at tableSize itself
  -- `isOpened` and `Close` stop the machine by a failed ASSERT, and `getUnixHandle` reads past the
  -- end of the array.
  pub handle_past_end :
      (is_opened t (pos table_size) ≡ abort)
      × (close_file t (pos table_size) ≡ abort)
      × (get_unix_handle t (pos table_size) ≡ overrun)
  unfolding is_opened close_file get_unix_handle get_entry test
  handle_past_end = (ground (arith, v.size), ground (arith, v.size), ground (arith, v.room))
