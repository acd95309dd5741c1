-- ===== src/OpenFile/Headers.antt =====
-- A header that was written back to its sector is fetched from there.
use nach_osx.Prelude.{
  ltb, leb, lt→ltb, length, get_or, set, overlay-all, take-all, get_or-set_self, get_or-set_ne, ℤ,
  pos, negsuc, ok, ℕ, zero, suc, ◌+◌, ◌*◌, ◌^◌, ◌<◌, ◌≡◌, refl, sym, ap, ◌∙◌, ◌≢◌, true, List, [],
  ◌∷◌, map, arith,
}
use nach_osx.Words.{word_size, int_word, word_int, to_bytes, from_bytes}
use nach_osx.FileSystem.{disk_sectors}
use nach_osx.FileHeader.{FileHeader, sector_size, num_direct}
use nach_osx.OpenFile.{
  Disk, copy_bytes, read_sector, write_sector, words_bytes, bytes_words, file_header_bytes,
  read_file_header, write_back, fetch_from, open_file,
}

abbrev pub AreWords : List ℕ → Type 0
AreWords [] = Unit {0}
AreWords (w ∷ ws) = (w < word_size) × AreWords ws

abbrev pub IsInt : ℤ → Type 0
IsInt (pos n) = n < 2 ^ 31
IsInt (negsuc n) = n < 2 ^ 31

abbrev pub AreInts : List ℤ → Type 0
AreInts [] = Unit {0}
AreInts (z ∷ zs) = IsInt z × AreInts zs

-- The fields are ints, and the table has its size.
pub record IsHeader (h : FileHeader) : Type 0 where
  pub bytes_fit : h.num_bytes < 2 ^ 31
  pub sectors_fit : h.num_sectors < 2 ^ 31
  pub size : length h.data_sectors ≡ num_direct
  pub entries : AreInts h.data_sectors

pub from_bytes-to_bytes : (w : ℕ) → w < word_size → from_bytes (to_bytes 4 w) ≡ w
from_bytes-to_bytes w fits = omega arith

pub bytes_words-words_bytes :
    (n : ℕ) (ws : List ℕ) → length ws ≡ n → AreWords ws → bytes_words n (words_bytes ws) ≡ ws
unfolding bytes_words words_bytes
bytes_words-words_bytes zero [] len fit = refl
bytes_words-words_bytes zero (w ∷ ws) len fit = absurd (omega arith)
bytes_words-words_bytes (suc n) [] len fit = absurd (omega arith)
bytes_words-words_bytes (suc n) (w ∷ ws) len fit =
    rw (bytes_words-words_bytes n ws (omega arith) fit.1)
      (ap (λ x. x ∷ ws) (from_bytes-to_bytes w fit.0))

pub word_int-int_word : (z : ℤ) → IsInt z → word_int (int_word z) ≡ z
unfolding word_int int_word
word_int-int_word (pos n) fits = ground arith
word_int-int_word (negsuc n) fits = ground arith

pub int_word_bound : (z : ℤ) → IsInt z → int_word z < word_size
unfolding int_word
int_word_bound (pos n) fits = omega arith
int_word_bound (negsuc n) fits = omega arith

int_word-AreWords : (zs : List ℤ) → AreInts zs → AreWords (map int_word zs)
unfolding int_word
int_word-AreWords [] fit = tt
int_word-AreWords (pos n ∷ zs) fit = (omega arith, int_word-AreWords zs fit.1)
int_word-AreWords (negsuc n ∷ zs) fit = (omega arith, int_word-AreWords zs fit.1)

map-word_int-int_word : (zs : List ℤ) → AreInts zs → map word_int (map int_word zs) ≡ zs
map-word_int-int_word [] fit = refl
map-word_int-int_word (z ∷ zs) fit = cc (word_int-int_word z fit.0, map-word_int-int_word zs fit.1)

pub length-words_bytes : (ws : List ℕ) → length (words_bytes ws) ≡ 4 * length ws
unfolding words_bytes
length-words_bytes [] = refl
length-words_bytes (w ∷ ws) = omega (arith, length-words_bytes ws)

length-map : (zs : List ℤ) → length (map int_word zs) ≡ length zs
length-map [] = refl
length-map (z ∷ zs) = ap suc (length-map zs)

length-file_header_bytes :
    (h : FileHeader) → IsHeader h → length (file_header_bytes h) ≡ sector_size
unfolding file_header_bytes
length-file_header_bytes h fit = omega (
  arith,
  length-words_bytes (h.num_bytes ∷ h.num_sectors ∷ map int_word h.data_sectors),
  length-map h.data_sectors,
  fit.size,
)

read_file_header-file_header_bytes :
    (h : FileHeader) → IsHeader h → read_file_header (file_header_bytes h) ≡ h
unfolding read_file_header file_header_bytes words_bytes
read_file_header-file_header_bytes h fit = λ i. record {
  num_bytes = from_bytes-to_bytes h.num_bytes (omega (arith, fit.bytes_fit)) i;
  num_sectors = from_bytes-to_bytes h.num_sectors (omega (arith, fit.sectors_fit)) i;
  data_sectors = table i;
}
  where
    table :
        map word_int (bytes_words num_direct (words_bytes (map int_word h.data_sectors)))
        ≡ h.data_sectors
    table =
        ap (map word_int) (
          bytes_words-words_bytes num_direct (map int_word h.data_sectors)
            (length-map h.data_sectors ∙ fit.size) (int_word-AreWords h.data_sectors fit.entries))
        ∙ map-word_int-int_word h.data_sectors fit.entries

copy_bytes-all :
    (n : ℕ) (source target : List ℕ)
    → length source ≡ n
    → length target ≡ n
    → copy_bytes source 0 n target 0 ≡ ok source
unfolding copy_bytes
copy_bytes-all n source target len len' =
    let e : leb (0 + n) (length source) ≡ true = ground (arith, len) in
    let e' : leb (0 + n) (length target) ≡ true = ground (arith, len') in
    rw (e, e', take-all n source len) (ap ok (overlay-all target source (len ∙ sym len')))

-- A header of ints, written back to a sector of the disk, is the header that the constructor of an
-- OpenFile gets from that sector; no other sector changes.
pub open_file-write_back :
    (h : FileHeader) (disk : Disk) (s : ℕ) (memory : List ℕ)
    → IsHeader h
    → s < disk_sectors
    → length disk ≡ disk_sectors
    → length (get_or disk s []) ≡ sector_size
    → length memory ≡ sector_size
    → (disk' : Disk) × (write_back h disk (pos s) ≡ ok disk')
      × (open_file disk' (pos s) memory ≡ ok (record { hdr = h; seek_position = 0 }))
      × ((j : ℕ) → s ≢ j → get_or disk' j [] ≡ get_or disk j [])
unfolding write_back write_sector open_file fetch_from read_sector
open_file-write_back h disk s memory fit there size whole room =
    let bytes = file_header_bytes h in
    let inside : ltb s disk_sectors ≡ true = lt→ltb s disk_sectors there in
    let len = length-file_header_bytes h fit in
    (
      set disk s bytes,
      rw (inside, copy_bytes-all sector_size bytes (get_or disk s []) len whole) refl,
      rw
          (
            inside,
            get_or-set_self disk s bytes [] (omega (arith, size)),
            copy_bytes-all sector_size bytes memory len room,
            read_file_header-file_header_bytes h fit,
          )
          refl,
      λ j other. get_or-set_ne disk s j bytes [] other,
    )
