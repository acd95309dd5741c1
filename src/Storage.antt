-- ===== src/Storage.antt =====
-- FetchFrom and WriteBack of filesys/directory.cc and userprog/bitmap.cc: tables kept in files.
--
-- The host puts a DirectoryEntry into 20 bytes: the bool, three bytes of padding, the int, ten characters
-- and two bytes of padding. What the padding holds is an argument.
pub mod Entries
pub mod Tables
use nach_osx.Prelude.{
  ◌==◌, if◌then◌else◌, get_or, take, drop, Outcome, ok, ◌>>=◌, ◌>>◌, ℕ, zero, suc, ◌+◌, ◌*◌, not,
  List, [], ◌∷◌, ◌++◌, map,
}
use nach_osx.Words.{int_word, word_int, to_bytes, from_bytes}
use nach_osx.BitMap.{BitMap}
use nach_osx.FileHeader.{FileHeader}
use nach_osx.Directory.{Directory, DirectoryEntry, file_name_max_len}
use nach_osx.OpenFile.{Disk, words_bytes, bytes_words, read_at, write_at}

-- sizeof(DirectoryEntry)
abbrev pub entry_size : ℕ
entry_size = 20

pub entry_bytes : List ℕ → DirectoryEntry → List ℕ
entry_bytes padding e =
    (if e.in_use then 1 else 0)
    ∷ (take 3 padding ++ (to_bytes 4 (int_word e.sector) ++ (e.name ++ drop 3 padding)))

pub read_entry : List ℕ → DirectoryEntry
read_entry bytes = record {
  in_use = not (get_or bytes 0 0 == 0);
  sector = word_int (from_bytes (take 4 (drop 4 bytes)));
  name = take (file_name_max_len + 1) (drop 8 bytes);
}

-- (char *)table, with the padding of each entry.
pub table_bytes : (ℕ → List ℕ) → ℕ → List DirectoryEntry → List ℕ
table_bytes padding i [] = []
table_bytes padding i (e ∷ es) = entry_bytes (padding i) e ++ table_bytes padding (i + 1) es

pub read_table : ℕ → List ℕ → List DirectoryEntry
read_table zero bytes = []
read_table (suc n) bytes = read_entry (take entry_size bytes) ∷ read_table n (drop entry_size bytes)

module _ (fresh : ℕ → List ℕ) (hdr : FileHeader) where
  pub directory_write_back : (ℕ → List ℕ) → Directory → Disk → Outcome Disk
  directory_write_back padding d disk = do
    (_, disk') ←
        write_at fresh fresh fresh hdr disk (table_bytes padding 0 d.table)
          (d.table_size * entry_size) 0
    ok disk'

  -- `memory` is what the table of the directory held.
  pub directory_fetch_from : List ℕ → Directory → Disk → Outcome Directory
  directory_fetch_from memory d disk = do
    (_, bytes) ← read_at fresh hdr disk memory 0 (d.table_size * entry_size) 0
    ok (record d { table = read_table d.table_size bytes })

  pub bit_map_write_back : BitMap → Disk → Outcome Disk
  bit_map_write_back m disk = do
    (_, disk') ← write_at fresh fresh fresh hdr disk (words_bytes m.map) (m.num_words * 4) 0
    ok disk'

  pub bit_map_fetch_from : BitMap → Disk → Outcome BitMap
  bit_map_fetch_from m disk = do
    (_, bytes) ← read_at fresh hdr disk (words_bytes m.map) 0 (m.num_words * 4) 0
    ok (record m { map = bytes_words m.num_words bytes })
