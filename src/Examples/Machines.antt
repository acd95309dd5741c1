-- ===== src/Examples/Machines.antt =====
-- Products, instruction words and translations.
use nach_osx.Prelude.{
  if◌then◌else◌, get_or, replicate, length-replicate, ok, ℕ, ◌-◌, ◌*◌, ◌%◌, ◌≡◌, refl, inr, true,
  false, not, none, some, [], ◌∷◌, arith,
}
use nach_osx.Words.{word_size, is_negative}
use nach_osx.MipsSim.{mult}
use nach_osx.MipsSim.Multiply.{double_word, magnitude, mult_signed}
use nach_osx.MipsSim.OpCodes.{special_table, op_res, op_add}
use nach_osx.Translate.{Machine, ExceptionType, translate}
use nach_osx.Translate.Entries.{IsMachine}
use nach_osx.Translate.Translation.{Translated, translate-Translated}

-- -3 times 5
mult_signed_example : double_word (mult 0xffff_fffd 5 true) ≡ (
    if (if is_negative 5 then not (is_negative 0xffff_fffd) else is_negative 0xffff_fffd)
    then (word_size * word_size - magnitude 0xffff_fffd * magnitude 5) % (word_size * word_size)
    else magnitude 0xffff_fffd * magnitude 5)
mult_signed_example = mult_signed 0xffff_fffd 5 (omega arith) (omega arith)

-- ADD r3,r1,r2

add_is_there : get_or special_table 0x20 op_res ≡ op_add
unfolding special_table
add_is_there = refl

-- Two pages in the frames 7 and 3, the second read-only.
abbrev two_pages : Machine
two_pages = record {
  main_memory = replicate 4096 0;
  tlb = none;
  page_table = some (
      record {
        virtual_page = 0;
        physical_page = 7;
        valid = true;
        read_only = false;
        use_bit = false;
        dirty = false;
      }
      ∷ record {
        virtual_page = 1;
        physical_page = 3;
        valid = true;
        read_only = true;
        use_bit = false;
        dirty = false;
      }
      ∷ []);
  page_table_size = 2;
}

two_pages-IsMachine : IsMachine two_pages
two_pages-IsMachine = record { table = refl; memory = length-replicate {A = ℕ} 4096 0 }

translate-Translated_example :
    (x : ExceptionType) × (a : ℕ) × (m : Machine) × (translate two_pages 132 4 false ≡ ok (x, a, m))
    × Translated two_pages 132 4 false x a m
translate-Translated_example =
    translate-Translated two_pages 132 4 false two_pages-IsMachine (inr (inr refl))
