-- ===== src/BitMap/Laws.antt =====
-- What Mark, Clear, Test and the constructor of BitMap do, seen as a set of bits.
use Prim.Native.Nat.{bit_and, bit_or}
use nach_osx.Prelude.{
  ◌==◌, if◌then◌else◌, lt→ltb, ==_iff, Bool-cases, length, get_or, set, length-set, get_or-set_self,
  get_or-set_ne, pos, ok, ℕ, ◌/◌, ◌%◌, ◌<◌, ◌≡◌, refl, ◌∙◌, inl, inr, Bool, true, false, arith,
}
use nach_osx.Bits.{
  bit, shift_one, complement, bit-bit_and, bit-bit_or, bit-shift_one, bit-complement-shift_one,
  bit_and-shift_one,
}
use nach_osx.BitMap.{BitMap, bits_in_word, div_round_up, update_word, mark, clear, test}

-- The bit that `Test` reports.
unfoldable pub is_marked : BitMap → ℕ → Bool
is_marked m i = bit (i % bits_in_word) (get_or m.map (i / bits_in_word) 0)

-- There is a word for each bit.
pub record IsValid (m : BitMap) : Type 0 where
  pub words : m.num_words ≡ div_round_up m.num_bits bits_in_word
  pub stored : length m.map ≡ m.num_words

-- `m'` is `m` with bit `i` set to `b`.
pub record Updates (m : BitMap) (i : ℕ) (b : Bool) (m' : BitMap) : Type 0 where
  pub valid : IsValid m'
  pub same_size : m'.num_bits ≡ m.num_bits
  pub bits : (j : ℕ) → is_marked m' j ≡ (if i == j then b else is_marked m j)

word_stored : (m : BitMap) (i : ℕ) → IsValid m → i < m.num_bits → i / bits_in_word < length m.map
unfolding div_round_up
word_stored m i v h = ground arith

-- `Test` of a bit in range reports whether it is marked.
pub test_lem :
    (m : BitMap) (i : ℕ) → IsValid m → i < m.num_bits → test m (pos i) ≡ ok (is_marked m i)
unfolding test is_marked
test_lem m i v h =
    rw
      (
        lt→ltb _ _ h,
        lt→ltb _ _ (word_stored m i v h),
        bit_and-shift_one (i % 32) (get_or m.map (i / 32) 0),
      )
      (ground arith)

mod_lt_word : (i : ℕ) → i % bits_in_word < 32
mod_lt_word i = omega arith

-- Two positions are the same when they share the word and the place in it.
same_position : (i j : ℕ) → i / 32 ≡ j / 32 → (i % 32 == j % 32) ≡ (i == j)
same_position i j h = ground arith

-- Rewriting one word rewrites the bits of that word.
update_word_lem :
    (m : BitMap) (w : ℕ) (f : ℕ → ℕ)
    → w < length m.map
    → update_word m w f ≡ ok (record m { map = set m.map w (f (get_or m.map w 0)) })
unfolding update_word
update_word_lem m w f h = rw (lt→ltb _ _ h)

module _ (m : BitMap) (i : ℕ) (v : IsValid m) (h : i < m.num_bits) where
  -- A word operation that changes one bit gives `Updates`.
  Updates-set :
      (f : ℕ → ℕ) (b : Bool)
      → ((k w : ℕ) → k < 32 → bit k (f w) ≡ (if i % 32 == k then b else bit k w))
      → Updates m i b (record m { map = set m.map (i / 32) (f (get_or m.map (i / 32) 0)) })
  unfolding is_marked
  Updates-set f b one = record {
    valid = record { words = v.words; stored = length-set _ _ _ ∙ v.stored };
    same_size = refl;
    bits = λ j. elim (Bool-cases (i / 32 == j / 32)) [
      | inl same ↦
          let e : i / 32 ≡ j / 32 = (==_iff _ _).0 same in
          rw (
            ← e,
            get_or-set_self m.map (i / 32) (f (get_or m.map (i / 32) 0)) 0 (word_stored m i v h),
            one (j % 32) (get_or m.map (i / 32) 0) (mod_lt_word j),
            same_position i j e,
          )
      | inr other ↦
          rw (get_or-set_ne m.map (i / 32) (j / 32) (f (get_or m.map (i / 32) 0)) 0 (ground arith))
            (ground arith)
    ];
  }

  -- `Mark` of a bit in range passes its ASSERT, sets that bit and no other, and keeps the map valid.
  pub mark_lem : (m' : BitMap) × (mark m (pos i) ≡ ok m') × Updates m i true m'
  unfolding mark
  mark_lem = (
    _,
    rw (
      lt→ltb _ _ h,
      update_word_lem m (i / 32) (λ w. bit_or w (shift_one (i % 32))) (word_stored m i v h),
    ),
    Updates-set (λ w. bit_or w (shift_one (i % 32))) true
        (λ k w lt. ground (
          arith,
          bit-bit_or k w (shift_one (i % 32)),
          bit-shift_one k (i % 32) lt (mod_lt_word i),
        )),
  )

  -- `Clear` of a bit in range passes its ASSERT, clears that bit and no other, and keeps the map valid.
  pub clear_lem : (m' : BitMap) × (clear m (pos i) ≡ ok m') × Updates m i false m'
  unfolding clear
  clear_lem = (
    _,
    rw (
      lt→ltb _ _ h,
      update_word_lem m (i / 32) (λ w. bit_and w (complement (shift_one (i % 32))))
          (word_stored m i v h),
    ),
    Updates-set (λ w. bit_and w (complement (shift_one (i % 32)))) false
        (λ k w lt. ground (
          arith,
          bit-bit_and k w (complement (shift_one (i % 32))),
          bit-complement-shift_one k (i % 32) lt (mod_lt_word i),
        )),
  )
