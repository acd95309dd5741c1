-- ===== src/BitMap.antt =====
-- userprog/bitmap.h and userprog/bitmap.cc: an array of bits kept in 32-bit words. The memory that
-- `new` returns is not cleared, so `create` is given its contents.
pub mod Laws
pub mod Search
pub mod Count
use Prim.Native.Nat.{bit_and, bit_or}
use nach_osx.Prelude.{
  ℕ, zero, suc, ◌+◌, ◌-◌, ◌/◌, ◌%◌, ◌^◌, ◌≡◌, Bool, true, false, not, List, length, get_or, set,
  ltb, ◌==◌, if◌then◌else◌, ℤ, pos, negsuc, minus_one, Outcome, ok, abort, ◌>>=◌, ◌>>◌, check,
  bounds,
}
use nach_osx.Bits.{bit, shift_one, complement}

abbrev pub bits_in_word : ℕ
bits_in_word = 32

-- divRoundUp of threads/utility.h
unfoldable pub div_round_up : ℕ → ℕ → ℕ
div_round_up n s = n / s + (if ltb 0 (n % s) then 1 else 0)

pub record BitMap : Type 0 where
  pub num_bits : ℕ
  pub num_words : ℕ
  pub map : List ℕ

-- map[which / BitsInWord] = f(map[which / BitsInWord])
update_word : BitMap → ℕ → (ℕ → ℕ) → Outcome BitMap
update_word m w f = do
  bounds (ltb w (length m.map))
  ok (record m { map = set m.map w (f (get_or m.map w 0)) })

unfoldable pub mark : BitMap → ℤ → Outcome BitMap
unfolding update_word
mark m (negsuc which) = abort
mark m (pos which) = do
  check (ltb which m.num_bits)
  update_word m (which / bits_in_word) (λ w. bit_or w (shift_one (which % bits_in_word)))

pub clear : BitMap → ℤ → Outcome BitMap
unfolding update_word
clear m (negsuc which) = abort
clear m (pos which) = do
  check (ltb which m.num_bits)
  update_word m (which / bits_in_word)
      (λ w. bit_and w (complement (shift_one (which % bits_in_word))))

unfoldable pub test : BitMap → ℤ → Outcome Bool
test m (negsuc which) = abort
test m (pos which) = do
  check (ltb which m.num_bits)
  bounds (ltb (which / bits_in_word) (length m.map))
  ok (not (bit_and (get_or m.map (which / bits_in_word) 0) (shift_one (which % bits_in_word)) == 0))

-- The loop of the constructor, `n` rounds from `i` on.
clear_loop : ℕ → ℕ → BitMap → Outcome BitMap
clear_loop zero i m = ok m
clear_loop (suc n) i m = do m' ← clear m (pos i); clear_loop n (i + 1) m'

unfoldable pub create : List ℕ → ℕ → Outcome BitMap
unfolding clear_loop
create memory nitems =
    clear_loop nitems 0
      (record { num_bits = nitems; num_words = div_round_up nitems bits_in_word; map = memory })

find_loop : ℕ → ℕ → BitMap → Outcome (ℤ × BitMap)
find_loop zero i m = ok (minus_one, m)
find_loop (suc n) i m = do
  used ← test m (pos i)
  if used then find_loop n (i + 1) m else (do m' ← mark m (pos i); ok (pos i, m'))

unfoldable pub find : BitMap → Outcome (ℤ × BitMap)
unfolding find_loop
find m = find_loop m.num_bits 0 m

num_clear_loop : ℕ → ℕ → ℕ → BitMap → Outcome ℕ
num_clear_loop zero i count m = ok count
num_clear_loop (suc n) i count m = do
  used ← test m (pos i)
  num_clear_loop n (i + 1) (if used then count else count + 1) m

unfoldable pub num_clear : BitMap → Outcome ℕ
unfolding num_clear_loop
num_clear m = num_clear_loop m.num_bits 0 0 m
