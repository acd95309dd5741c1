-- ===== src/Examples/Spaces.antt =====
-- Address spaces of a small program and of a fork.
use nach_osx.Prelude.{
  same_below, same_below_lem, replicate, take, length-replicate, ok, ℕ, ◌<◌, ◌≡◌, refl, true, false,
  some, List, [], ◌∷◌, arith,
}
use nach_osx.Bits.{bit}
use nach_osx.BitMap
use nach_osx.BitMap.{BitMap}
use nach_osx.BitMap.Laws.{is_marked, IsValid}
use nach_osx.BitMap.Count.{free_bits, free_bits-empty}
use nach_osx.FileHeader.Sectors.{has}
use nach_osx.Translate.{TranslationEntry}
use nach_osx.VirtualMemory.{NoffHeader, Executable}
use nach_osx.AddrSpace.{new_entry, pages_for, exe_constructor, fork_constructor, delete_space}
use nach_osx.AddrSpace.Frames.{frames}
use nach_osx.AddrSpace.Programs.{
  shared_pages, delete_space-exe_constructor, delete_space-fork_constructor,
}

abbrev memory : List ℕ
memory = replicate 4096 0

abbrev header : NoffHeader
header = record {
  noff_magic = 0xbad_fad;
  code = record { virtual_addr = 0; in_file_addr = 40; size = 300 };
  init_data = record { virtual_addr = 0; in_file_addr = 0; size = 0 };
  uninit_data = record { virtual_addr = 0; in_file_addr = 0; size = 0 };
}

abbrev program : Executable
program = record { header = header; bytes = replicate 400 9 }

-- The frames of a machine without VM.
abbrev frame_map : BitMap
frame_map = record { num_bits = 32; num_words = 1; map = 0 ∷ [] }

frame_map-IsValid : IsValid frame_map
unfolding BitMap.div_round_up
frame_map-IsValid = record { words = refl; stored = refl }

no_frame_marked : (j : ℕ) → j < 32 → is_marked frame_map j ≡ false
unfolding same_below is_marked bit
no_frame_marked j lt = same_below_lem (is_marked frame_map) (λ i. false) 32 j refl lt

frames_free : free_bits frame_map ≡ 32
frames_free = free_bits-empty frame_map no_frame_marked

eleven_pages : pages_for header ≡ 11
unfolding BitMap.div_round_up
eleven_pages = refl

delete_space-exe_constructor_example :
    (es : List TranslationEntry) × (memory' : List ℕ) × (m' m'' : BitMap) × (exe_constructor program
        memory frame_map
      ≡ ok (some (record { page_table = some es; num_pages = pages_for header }, memory'), m'))
    × (delete_space es m' ≡ ok m'')
    × ((j : ℕ) → is_marked m'' j ≡ is_marked frame_map j)
delete_space-exe_constructor_example =
    delete_space-exe_constructor program memory frame_map frame_map-IsValid refl refl
      (omega (arith, eleven_pages, frames_free)) (omega (arith, eleven_pages))
      (length-replicate {A = ℕ} 4096 0)

-- A parent of ten pages, in frames 20 to 29.
abbrev parent : List TranslationEntry
parent =
    new_entry 0 20
    ∷ new_entry 1 21
    ∷ new_entry 2 22
    ∷ new_entry 3 23
    ∷ new_entry 4 24
    ∷ new_entry 5 25
    ∷ new_entry 6 26
    ∷ new_entry 7 27
    ∷ new_entry 8 28
    ∷ new_entry 9 29
    ∷ []

two_shared : shared_pages 10 ≡ 2
unfolding BitMap.div_round_up
two_shared = refl

delete_space-fork_constructor_example :
    (es : List TranslationEntry) × (m' m'' : BitMap) × (fork_constructor 10 parent frame_map
      ≡ ok (some (record { page_table = some es; num_pages = 10 }), m'))
    × (delete_space es m' ≡ ok m'')
    × ((j : ℕ) → has j (take (shared_pages 10) (frames parent)) ≡ true → has j (frames es) ≡ true)
    × ((j : ℕ) → has j (take (shared_pages 10) (frames parent)) ≡ true → is_marked m'' j ≡ false)
delete_space-fork_constructor_example =
    delete_space-fork_constructor 10 parent frame_map frame_map-IsValid (omega (arith, two_shared))
      (omega (arith, two_shared, frames_free)) (λ j h. ground arith)
