-- ===== src/OpenFile/Ends.antt =====
-- The partial sectors that WriteAt reads before it writes.
use nach_osx.Prelude.{
  ◌==◌, ==_iff, Bool-cases, length, ok, ℕ, ◌+◌, ◌-◌, ◌*◌, ◌/◌, ◌≤◌, ◌<◌, ◌≡◌, refl, ap, ◌∙◌, inl,
  inr, false, not, ◌&&◌, ◌||◌, List, arith,
}
use nach_osx.FileHeader.{FileHeader, sector_size}
use nach_osx.OpenFile.{
  Disk, clipped, last_sector, sector_count, first_aligned, last_aligned, read_at, read_first,
  read_last,
}
use nach_osx.OpenFile.Buffers.{at}
use nach_osx.OpenFile.Reading.{Stored, file_byte, IsFresh, read_at-Filled}

module _ (hdr : FileHeader) (ss : List ℕ) (disk : Disk) (count position : ℕ) where
  abbrev pub first : ℕ
  first = position / sector_size

  abbrev pub last : ℕ
  last = last_sector position count

  -- A buffer of whole sectors has the bytes of the file in front of what is written.
  abbrev pub Low : List ℕ → Type 0
  Low buf =
      (k : ℕ)
      → first * sector_size ≤ k
      → k < position
      → at buf (k - first * sector_size) ≡ file_byte ss disk k

  -- It has the bytes of the file behind what is written.
  abbrev pub High : List ℕ → Type 0
  High buf =
      (k : ℕ)
      → position + count ≤ k
      → k < (last + 1) * sector_size
      → k < hdr.num_bytes
      → at buf (k - first * sector_size) ≡ file_byte ss disk k

  module _ (stored : Stored hdr ss disk) (some_bytes : 0 < count)
      (inside : position + count ≤ hdr.num_bytes) where
    -- One of the two reads, of sector `i`.
    read_sector-at :
        (fresh : ℕ → List ℕ) (buf : List ℕ) (i to : ℕ)
        → IsFresh fresh
        → to ≡ (i - first) * sector_size
        → first ≤ i
        → i ≤ last
        → length buf ≡ sector_count position count * sector_size
        → (r : ℕ) × (buf' : List ℕ) × (read_at fresh hdr disk buf to sector_size (i * sector_size)
            ≡ ok (r, buf'))
          × (length buf' ≡ length buf)
          × ((k : ℕ)
              → i * sector_size ≤ k
              → k < (i + 1) * sector_size
              → k < hdr.num_bytes
              → at buf' (k - first * sector_size) ≡ file_byte ss disk k)
          × ((j : ℕ) → j < to → at buf' j ≡ at buf j)
    read_sector-at fresh buf i to is_fresh here low high size =
        let c = clipped hdr.num_bytes sector_size (i * sector_size) in
        let small : c ≤ sector_size = ground arith in
        let (buf', e, f) =
          read_at-Filled hdr ss disk stored fresh buf to sector_size (i * sector_size) is_fresh
            (omega (arith, small)) in
        (
          c,
          buf',
          e,
          f.same_size,
          λ k le lt in_file.
              let j = k - i * sector_size in
              let there : j < c = ground arith in
              let place : k - first * sector_size ≡ to + j = omega arith in
              let back : i * sector_size + j ≡ k = omega arith in
              ap (at buf') place ∙ (f.inside j there ∙ ap (file_byte ss disk) back),
          f.before,
        )

    pub read_first_lem :
        (fresh : ℕ → List ℕ) (buf : List ℕ)
        → IsFresh fresh
        → length buf ≡ sector_count position count * sector_size
        → (r : ℕ) × (buf' : List ℕ) × (read_first fresh hdr disk buf position ≡ ok (r, buf'))
          × (length buf' ≡ length buf)
          × Low buf'
          × (first_aligned position ≡ false → first ≡ last → High buf')
    unfolding read_first
    read_first_lem fresh buf is_fresh size = elim (Bool-cases (first_aligned position)) [
      | inl aligned ↦
          let e : position ≡ first * sector_size = (==_iff _ _).0 aligned in
          (0, buf, rw aligned refl, refl, λ k le lt. absurd (omega arith), λ no_fit same. cc)
      | inr partial ↦
          let (r, buf', e, same, bytes, rest) =
            read_sector-at fresh buf first 0 is_fresh (omega arith) (omega arith) (omega arith)
              size in
          (
            r,
            buf',
            rw partial e,
            same,
            λ k le lt. bytes k le (omega arith) (omega arith),
            λ no_fit one k le lt in_file. bytes k (omega arith) (omega arith) in_file,
          )
    ]

    pub read_last_lem :
        (fresh : ℕ → List ℕ) (buf : List ℕ)
        → IsFresh fresh
        → length buf ≡ sector_count position count * sector_size
        → Low buf
        → (first_aligned position ≡ false → first ≡ last → High buf)
        → (r : ℕ) × (buf' : List ℕ) × (read_last fresh hdr disk buf count position ≡ ok (r, buf'))
          × (length buf' ≡ length buf)
          × Low buf'
          × High buf'
    unfolding read_last
    read_last_lem fresh buf is_fresh size low high =
        elim (Bool-cases
          (not (last_aligned position count) && (not (first == last) || first_aligned position))) [
            | inl needed ↦
                let (r, buf', e, same, bytes, rest) =
                  read_sector-at fresh buf last ((last - first) * sector_size) is_fresh refl
                    (omega arith) (omega arith) size in
                (
                  r,
                  buf',
                  rw needed e,
                  same,
                  λ k le lt.
                      let in_front : k - first * sector_size < (last - first) * sector_size =
                        ground arith in
                      rest (k - first * sector_size) in_front ∙ low k le lt,
                  λ k le lt in_file. bytes k (omega arith) lt in_file,
                )
            | inr done ↦ (
              0,
              buf,
              rw done refl,
              refl,
              low,
              λ k le lt in_file. elim (Bool-cases (last_aligned position count)) [
                | inl aligned ↦ absurd (ground arith)
                | inr partial ↦ high (ground arith) (ground arith) k le lt in_file
              ],
            )
          ]
