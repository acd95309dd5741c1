-- ===== src/Examples/Maps.antt =====
-- BitMap at small maps.
use nach_osx.Prelude.{pos, ok, abort, ◌≡◌, refl, [], ◌∷◌}
use nach_osx.BitMap
use nach_osx.BitMap.{BitMap, mark, clear, test, find, num_clear}
use nach_osx.BitMap.Laws.{IsValid}

-- 40 bits in two words; bits 0, 2 and 33 are set.
abbrev two_words : BitMap
two_words = record { num_bits = 40; num_words = 2; map = 5 ∷ 2 ∷ [] }

two_words-IsValid : IsValid two_words
unfolding BitMap.div_round_up
two_words-IsValid = record { words = refl; stored = refl }

find_runs : find two_words ≡ ok (pos 1, record { num_bits = 40; num_words = 2; map = 7 ∷ 2 ∷ [] })
unfolding find mark test
find_runs = refl

num_clear_runs : num_clear two_words ≡ ok 37
unfolding num_clear test
num_clear_runs = refl

test_past_end : test two_words (pos 40) ≡ abort
unfolding test
test_past_end = refl
