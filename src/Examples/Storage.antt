-- ===== src/Examples/Storage.antt =====
-- A directory of ten entries and a bit map of fifty words in the file of 200 bytes.
use nach_osx.Prelude.{
  replicate, length-replicate, pos, ok, ℕ, zero, suc, ◌<◌, ◌≡◌, refl, true, [], ◌∷◌, arith,
}
use nach_osx.Words.{word_size}
use nach_osx.BitMap.{BitMap}
use nach_osx.Directory.{Directory, DirectoryEntry}
use nach_osx.OpenFile.{Disk}
use nach_osx.OpenFile.Reading.{Stored}
use nach_osx.OpenFile.Headers.{AreWords}
use nach_osx.Storage.{
  directory_write_back, directory_fetch_from, bit_map_write_back, bit_map_fetch_from,
}
use nach_osx.Storage.Entries.{IsEntry, AreEntries}
use nach_osx.Storage.Tables.{
  directory_fetch_from-directory_write_back, bit_map_fetch_from-bit_map_write_back,
}
use nach_osx.Examples.Files.{blank, two_sectors, places, two_sectors-Stored, new_bytes}

all_entries : (n : ℕ) (e : DirectoryEntry) → IsEntry e → AreEntries (replicate n e)
all_entries zero e v = tt
all_entries (suc n) e v = (v, all_entries n e v)

abbrev letter : DirectoryEntry
letter = record { in_use = true; sector = pos 12; name = 97 ∷ 0 ∷ replicate 8 3 }

abbrev letters : Directory
letters = record { table_size = 10; table = replicate 10 letter }

abbrev no_letters : Directory
no_letters = record { table_size = 10; table = [] }

directory_fetch_from-directory_write_back_example :
    (disk' : Disk) × (directory_write_back new_bytes two_sectors (λ _. replicate 5 0) letters blank
      ≡ ok disk')
    × (directory_fetch_from new_bytes two_sectors (replicate 200 0) no_letters disk' ≡ ok letters)
    × Stored two_sectors places disk'
directory_fetch_from-directory_write_back_example =
    directory_fetch_from-directory_write_back two_sectors places blank two_sectors-Stored new_bytes
      (λ size. length-replicate {A = ℕ} size 1) (λ _. replicate 5 0) letters no_letters
      (replicate 200 0) (λ _. refl) refl
      (all_entries 10 letter (record { size = refl; int = omega arith })) refl refl refl

all_words : (n w : ℕ) → w < word_size → AreWords (replicate n w)
all_words zero w lt = tt
all_words (suc n) w lt = (lt, all_words n w lt)

abbrev marked : BitMap
marked = record { num_bits = 1600; num_words = 50; map = replicate 50 21 }

abbrev unread : BitMap
unread = record { num_bits = 1600; num_words = 50; map = replicate 50 0 }

bit_map_fetch_from-bit_map_write_back_example :
    (disk' : Disk) × (bit_map_write_back new_bytes two_sectors marked blank ≡ ok disk')
    × (bit_map_fetch_from new_bytes two_sectors unread disk' ≡ ok marked)
    × Stored two_sectors places disk'
bit_map_fetch_from-bit_map_write_back_example =
    bit_map_fetch_from-bit_map_write_back two_sectors places blank two_sectors-Stored new_bytes
      (λ size. length-replicate {A = ℕ} size 1) marked unread refl refl
      (all_words 50 21 (omega arith)) refl refl refl
