-- ===== src/Memory/Values.antt =====
-- A value that was written is read back, as far as its bytes go.
use nach_osx.Prelude.{
  leb, ◌==◌, if◌then◌else◌, length, overlay, length-overlay, take-drop-overlay, ok, ℕ, ◌+◌, ◌*◌,
  ◌%◌, ◌^◌, ◌≤◌, ◌<◌, ◌≡◌, refl, sym, ap, subst, ◌⊎◌, inl, inr, true, List, arith,
}
use nach_osx.Words.{to_bytes, from_bytes}
use nach_osx.Memory.{signed_byte, bytes_at, read_value, write_value}

-- What a write of `size` bytes keeps of a word.
pub stored : ℕ → ℕ → ℕ
stored size value =
    if size == 1 then signed_byte (value % 256) else if size == 2 then value % 65536 else value

abbrev pub AccessSize : ℕ → Type 0
AccessSize size = (size ≡ 1) ⊎ ((size ≡ 2) ⊎ (size ≡ 4))

abbrev Kept : List ℕ → ℕ → ℕ → ℕ → Type 0
Kept memory address value size =
    (memory' : List ℕ) × (write_value memory address size value ≡ ok memory')
    × (read_value memory' address size ≡ ok (stored size value))
    × (length memory' ≡ length memory)

module _ (memory : List ℕ) (address value : ℕ) where
  -- The bytes that are read are those that were written.
  same_bytes :
      (size : ℕ)
      → address + size ≤ length memory
      → length (to_bytes size value) ≡ size
      → bytes_at (overlay memory address (to_bytes size value)) address size
        ≡ ok (to_bytes size value)
  unfolding bytes_at
  same_bytes size fits count =
      rw
        (
          length-overlay memory address (to_bytes size value),
          inside,
          take-drop-overlay memory address size (to_bytes size value) count fits,
        )
        refl
    where
      inside : leb (address + size) (length memory) ≡ true
      inside = ground (arith, fits)

  Kept-byte : address + 1 ≤ length memory → Kept memory address value 1
  unfolding read_value write_value stored
  Kept-byte fits =
      let inside : leb (address + 1) (length memory) ≡ true = ground (arith, fits) in
      let low : value % 256 + 256 * 0 ≡ value % 256 = omega arith in
      (
        overlay memory address (to_bytes 1 value),
        rw inside refl,
        rw (same_bytes 1 fits refl) (ap (λ b. ok (signed_byte b)) low),
        length-overlay memory address (to_bytes 1 value),
      )

  Kept-half : address + 2 ≤ length memory → Kept memory address value 2
  unfolding read_value write_value stored
  Kept-half fits =
      let inside : leb (address + 2) (length memory) ≡ true = ground (arith, fits) in
      let low : from_bytes (to_bytes 2 value) ≡ value % 65536 = omega arith in
      (
        overlay memory address (to_bytes 2 value),
        rw inside refl,
        rw (same_bytes 2 fits refl) (ap ok low),
        length-overlay memory address (to_bytes 2 value),
      )

  Kept-word : value < 2 ^ 32 → address + 4 ≤ length memory → Kept memory address value 4
  unfolding read_value write_value stored
  Kept-word word fits =
      let inside : leb (address + 4) (length memory) ≡ true = ground (arith, fits) in
      let low : from_bytes (to_bytes 4 value) ≡ value = omega arith in
      (
        overlay memory address (to_bytes 4 value),
        rw inside refl,
        rw (same_bytes 4 fits refl) (ap ok low),
        length-overlay memory address (to_bytes 4 value),
      )

-- A write of 1, 2 or 4 bytes of a word inside the memory, and a read of as many at the same place, give the
-- low byte with its sign, the low two bytes or the whole word; the memory keeps its size.
pub read_value-write_value :
    (memory : List ℕ) (address size value : ℕ)
    → AccessSize size
    → value < 2 ^ 32
    → address + size ≤ length memory
    → (memory' : List ℕ) × (write_value memory address size value ≡ ok memory')
      × (read_value memory' address size ≡ ok (stored size value))
      × (length memory' ≡ length memory)
read_value-write_value memory address size value (inl e) word fits =
    subst (Kept memory address value) (sym e) (Kept-byte memory address value (omega arith))
read_value-write_value memory address size value (inr (inl e)) word fits =
    subst (Kept memory address value) (sym e) (Kept-half memory address value (omega arith))
read_value-write_value memory address size value (inr (inr e)) word fits =
    subst (Kept memory address value) (sym e) (Kept-word memory address value word (omega arith))
