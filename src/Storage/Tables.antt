-- ===== src/Storage/Tables.antt =====
-- A table that was written back to its file is the one that is fetched from there.
use nach_osx.Prelude.{
  length, ok, ℕ, suc, ◌+◌, ◌*◌, ◌<◌, ◌≡◌, refl, sym, ap, ◌∙◌, subst, List, [], ◌∷◌, arith,
}
use nach_osx.BitMap.{BitMap}
use nach_osx.FileHeader.{FileHeader}
use nach_osx.Directory.{Directory}
use nach_osx.OpenFile.{Disk, clipped, words_bytes, read_at, write_at}
use nach_osx.OpenFile.Buffers.{at}
use nach_osx.OpenFile.Reading.{Stored, IsFresh, read_at-Filled}
use nach_osx.OpenFile.Updates.{Updated, write_at-Updated}
use nach_osx.OpenFile.Headers.{bytes_words-words_bytes, AreWords, length-words_bytes}
use nach_osx.Storage.{
  entry_size, table_bytes, directory_write_back, directory_fetch_from, bit_map_write_back,
  bit_map_fetch_from,
}
use nach_osx.Storage.Entries.{AreEntries, length-table_bytes, read_table-table_bytes}

same_bytes :
    (xs ys : List ℕ)
    → length xs ≡ length ys
    → ((k : ℕ) → k < length ys → at xs k ≡ at ys k)
    → xs ≡ ys
same_bytes [] [] len each = refl
same_bytes [] (y ∷ ys) len each = absurd (omega arith)
same_bytes (x ∷ xs) [] len each = absurd (omega arith)
same_bytes (x ∷ xs) (y ∷ ys) len each =
    let tails = same_bytes xs ys (omega arith) (λ k lt. each (suc k) (omega arith)) in
    λ i. each 0 (omega arith) i ∷ tails i

whole_file : (n : ℕ) → clipped n n 0 ≡ n
whole_file n = ground arith

word_bytes_size : (n : ℕ) (ws : List ℕ) → length ws ≡ n → length (words_bytes ws) ≡ n * 4
word_bytes_size n ws len = omega (arith, length-words_bytes ws)

module _ (hdr : FileHeader) (ss : List ℕ) (disk : Disk) (stored : Stored hdr ss disk)
    (fresh : ℕ → List ℕ) (is_fresh : IsFresh fresh) where
  -- All bytes of a file, written and read.
  bytes_kept :
      (n : ℕ) (bytes memory : List ℕ)
      → hdr.num_bytes ≡ n
      → length bytes ≡ n
      → length memory ≡ n
      → (disk' : Disk) × (write_at fresh fresh fresh hdr disk bytes n 0 ≡ ok (n, disk'))
        × (read_at fresh hdr disk' memory 0 n 0 ≡ ok (n, bytes))
        × Updated hdr ss disk bytes n 0 disk'
  bytes_kept n bytes memory size len room =
      let c : clipped hdr.num_bytes n 0 ≡ n = ap (λ m. clipped m n 0) size ∙ whole_file n in
      let (disk', e, u) =
        write_at-Updated hdr ss disk stored fresh fresh fresh is_fresh is_fresh is_fresh bytes n 0
          (omega (arith, c)) in
      let (into, e', f) =
        read_at-Filled hdr ss disk' u.stored fresh memory 0 n 0 is_fresh (omega (arith, c)) in
      let same : into ≡ bytes = same_bytes into bytes (f.same_size ∙ (room ∙ sym len)) (λ k lt.
        let start : k ≡ 0 + k = omega arith in
        ap (at into) start ∙ (f.inside k (omega (arith, c)) ∙ u.inside k (omega (arith, c)))) in
      (
        disk',
        e ∙ ap (λ m. ok (m, disk')) c,
        e' ∙ (λ i. ok (c i, same i)),
        subst (λ m. Updated hdr ss disk bytes m 0 disk') c u,
      )

  -- A directory that WriteBack wrote to a file of its size is what FetchFrom gets from that file into a
  -- directory of the same size, and the file's header still holds its sectors.
  pub directory_fetch_from-directory_write_back :
      (padding : ℕ → List ℕ) (d d₀ : Directory) (memory : List ℕ)
      → ((i : ℕ) → length (padding i) ≡ 5)
      → length d.table ≡ d.table_size
      → AreEntries d.table
      → d₀.table_size ≡ d.table_size
      → length memory ≡ d.table_size * entry_size
      → hdr.num_bytes ≡ d.table_size * entry_size
      → (disk' : Disk) × (directory_write_back fresh hdr padding d disk ≡ ok disk')
        × (directory_fetch_from fresh hdr memory d₀ disk' ≡ ok d)
        × Stored hdr ss disk'
  unfolding directory_write_back directory_fetch_from
  directory_fetch_from-directory_write_back padding d d₀ memory five len entries same room size =
      let bytes = table_bytes padding 0 d.table in
      let count : length bytes ≡ d.table_size * entry_size =
        length-table_bytes padding five 0 d.table entries ∙ ap (λ n. n * entry_size) len in
      let (disk', e, e', u) = bytes_kept (d.table_size * entry_size) bytes memory size count room in
      (
        disk',
        rw e refl,
        rw (same, e', read_table-table_bytes padding five 0 d.table_size d.table len entries) refl,
        u.stored,
      )

  -- The same for a bit map whose words are words.
  pub bit_map_fetch_from-bit_map_write_back :
      (m m₀ : BitMap)
      → length m.map ≡ m.num_words
      → length m₀.map ≡ m.num_words
      → AreWords m.map
      → m₀.num_bits ≡ m.num_bits
      → m₀.num_words ≡ m.num_words
      → hdr.num_bytes ≡ m.num_words * 4
      → (disk' : Disk) × (bit_map_write_back fresh hdr m disk ≡ ok disk')
        × (bit_map_fetch_from fresh hdr m₀ disk' ≡ ok m)
        × Stored hdr ss disk'
  unfolding bit_map_write_back bit_map_fetch_from
  bit_map_fetch_from-bit_map_write_back m m₀ len len₀ words bits same size =
      let (disk', e, e', u) =
        bytes_kept (m.num_words * 4) (words_bytes m.map) (words_bytes m₀.map) size
          (word_bytes_size m.num_words m.map len) (word_bytes_size m.num_words m₀.map len₀) in
      (
        disk',
        rw e refl,
        rw (same, bits, e', bytes_words-words_bytes m.num_words m.map len words) refl,
        u.stored,
      )
