-- ===== src/OpenFile/Reading.antt =====
-- What ReadAt reads: the bytes of the file that the sectors of its header hold.
use nach_osx.Prelude.{
  ◌==◌, lt→ltb, length, get_or, pos, minus_one, Outcome, ok, ℕ, zero, suc, ◌+◌, ◌-◌, ◌*◌, ◌/◌, ◌%◌,
  ◌≤◌, ◌<◌, ◌≡◌, refl, ap, ◌∙◌, false, List, [], arith,
}
use nach_osx.FileSystem.{disk_sectors}
use nach_osx.FileHeader.{FileHeader, sector_size}
use nach_osx.FileHeader.Sectors.{byte_to_sector_lem}
use nach_osx.OpenFile.{
  Disk, read_sector, read_loop, answer, clipped, sector_count, read_bytes, read_at,
}
use nach_osx.OpenFile.Buffers.{at, Filled, copy_bytes-Filled, Filled-nil, Filled-Filled}

-- The header has the distinct sectors `ss` of the disk, which are whole and as many as its bytes need.
pub record Stored (hdr : FileHeader) (ss : List ℕ) (disk : Disk) : Type 0 where
  pub held : (i : ℕ) → i < length ss → get_or hdr.data_sectors i minus_one ≡ pos (at ss i)
  pub room : length ss ≤ length hdr.data_sectors
  pub on_disk : (i : ℕ) → i < length ss → at ss i < disk_sectors
  pub whole : (s : ℕ) → s < disk_sectors → length (get_or disk s []) ≡ sector_size
  pub disk_size : length disk ≡ disk_sectors
  pub distinct : (i j : ℕ) → i < length ss → j < length ss → at ss i ≡ at ss j → i ≡ j
  pub enough : hdr.num_bytes ≤ length ss * sector_size

-- Byte `k` of the file.
abbrev pub file_byte : List ℕ → Disk → ℕ → ℕ
file_byte ss disk k = at (get_or disk (at ss (k / sector_size)) []) (k % sector_size)

-- `new char[size]` returns so many bytes.
abbrev pub IsFresh : (ℕ → List ℕ) → Type 0
IsFresh fresh = (size : ℕ) → length (fresh size) ≡ size

pub clipped_inside :
    (file_len num_bytes position : ℕ)
    → 0 < clipped file_len num_bytes position
    → position + clipped file_len num_bytes position ≤ file_len
clipped_inside file_len num_bytes position some_bytes = ground arith

pub answer-ok :
    {A : Type 0} (count : ℕ) (same : A) (served : Outcome A) (changed : A)
    → 0 < count
    → served ≡ ok changed
    → answer count same served ≡ ok (count, changed)
answer-ok count same served changed some_bytes h =
    let e : (count == 0) ≡ false = ground arith in rw (e, h) refl

module _ (hdr : FileHeader) (ss : List ℕ) (disk : Disk) (stored : Stored hdr ss disk) where
  read_sector-Filled :
      (i : ℕ) (buf : List ℕ) (to : ℕ)
      → i < length ss
      → to + sector_size ≤ length buf
      → (buf' : List ℕ) × (read_sector disk (pos (at ss i)) buf to ≡ ok buf')
        × Filled (λ k. at (get_or disk (at ss i) []) (0 + k)) sector_size buf to buf'
  unfolding read_sector
  read_sector-Filled i buf to inside room =
      rw (lt→ltb (at ss i) disk_sectors (stored.on_disk i inside)) (
        copy_bytes-Filled (get_or disk (at ss i) []) 0 sector_size buf to
          (omega (arith, stored.whole (at ss i) (stored.on_disk i inside))) room)

  -- A byte of one sector.
  same_byte :
      (i k : ℕ)
      → k < sector_size
      → at (get_or disk (at ss i) []) (0 + k) ≡ file_byte ss disk (i * sector_size + k)
  same_byte i k lt =
      let e : (i * sector_size + k) / sector_size ≡ i = omega arith in
      let e' : (i * sector_size + k) % sector_size ≡ 0 + k = omega arith in rw (e, e') refl

  pub read_loop-Filled :
      (n i first : ℕ) (buf : List ℕ)
      → first ≤ i
      → i + n ≤ length ss
      → (i - first + n) * sector_size ≤ length buf
      → (buf' : List ℕ) × (read_loop n i first hdr disk buf ≡ ok buf')
        × Filled
            (λ k. file_byte ss disk (i * sector_size + k))
            (n * sector_size)
            buf
            ((i - first) * sector_size)
            buf'
  unfolding read_loop
  read_loop-Filled zero i first buf start end room = (
    buf,
    refl,
    Filled-nil (λ k. file_byte ss disk (i * sector_size + k)) buf ((i - first) * sector_size),
  )
  read_loop-Filled (suc n) i first buf start end room =
      let to = (i - first) * sector_size in
      let (buf₁, e₁, f₁) = read_sector-Filled i buf to (omega arith) (omega arith) in
      let (buf₂, e₂, f₂) =
        read_loop-Filled n (i + 1) first buf₁ (omega arith) (omega arith)
          (omega (arith, f₁.same_size)) in
      (
        buf₂,
        rw
            (
              byte_to_sector_lem hdr i (at ss i) (omega (arith, stored.room))
                  (stored.held i (omega arith)),
              e₁,
            )
            e₂,
        Filled-Filled _ _ _ sector_size (n * sector_size) (suc n * sector_size) buf to
            ((i + 1 - first) * sector_size) buf₁ buf₂ f₁ f₂ (omega arith) (omega arith)
            (λ k lt. same_byte i k lt) (λ k lt. ap (file_byte ss disk) (omega arith)),
      )

  -- The whole sectors that a request meets, and the part of them that it asks for.
  read_bytes-Filled :
      (fresh : ℕ → List ℕ) (into : List ℕ) (to count position : ℕ)
      → IsFresh fresh
      → 0 < count
      → position + count ≤ hdr.num_bytes
      → to + count ≤ length into
      → (into' : List ℕ) × (read_bytes fresh hdr disk into to count position ≡ ok into')
        × Filled (λ k. file_byte ss disk (position + k)) count into to into'
  unfolding read_bytes
  read_bytes-Filled fresh into to count position is_fresh some_bytes inside room =
      let first = position / sector_size in
      let n = sector_count position count in
      let (buf, e₁, f₁) =
        read_loop-Filled n first first (fresh (n * sector_size)) (omega arith)
          (omega (arith, stored.enough)) (omega (arith, is_fresh (n * sector_size))) in
      let (into', e₂, f₂) =
        copy_bytes-Filled buf (position - first * sector_size) count into to
          (omega (arith, f₁.same_size, is_fresh (n * sector_size))) room in
      (
        into',
        rw e₁ e₂,
        record {
          same_size = f₂.same_size;
          inside = λ k lt.
              let j = position - first * sector_size + k in
              let e : j ≡ (first - first) * sector_size + j = omega arith in
              let e' : first * sector_size + j ≡ position + k = omega arith in
              f₂.inside k lt
              ∙ (ap (at buf) e ∙ (f₁.inside j (omega arith) ∙ ap (file_byte ss disk) e'));
          before = f₂.before;
          behind = f₂.behind;
        },
      )

  -- The two cases of ReadAt.
  served :
      (count : ℕ) (fresh : ℕ → List ℕ) (into : List ℕ) (to position : ℕ)
      → IsFresh fresh
      → (0 < count → position + count ≤ hdr.num_bytes)
      → to + count ≤ length into
      → (into' : List ℕ) × (answer count into (read_bytes fresh hdr disk into to count position)
          ≡ ok (count, into'))
        × Filled (λ k. file_byte ss disk (position + k)) count into to into'
  served zero fresh into to position is_fresh inside room =
      (into, refl, Filled-nil (λ k. file_byte ss disk (position + k)) into to)
  served (suc c) fresh into to position is_fresh inside room =
      let (into', e, f) =
        read_bytes-Filled fresh into to (suc c) position is_fresh (omega arith)
          (inside (omega arith)) room in
      (into', answer-ok (suc c) into _ into' (omega arith) e, f)

  -- A request on a file is met as far as the file goes: so many bytes of the file, from its position
  -- on, stand in the buffer, and the rest of the buffer is as it was.
  pub read_at-Filled :
      (fresh : ℕ → List ℕ) (into : List ℕ) (to num_bytes position : ℕ)
      → IsFresh fresh
      → to + clipped hdr.num_bytes num_bytes position ≤ length into
      → (into' : List ℕ) × (read_at fresh hdr disk into to num_bytes position
          ≡ ok (clipped hdr.num_bytes num_bytes position, into'))
        × Filled
            (λ k. file_byte ss disk (position + k))
            (clipped hdr.num_bytes num_bytes position)
            into
            to
            into'
  unfolding read_at
  read_at-Filled fresh into to num_bytes position is_fresh room =
      served (clipped hdr.num_bytes num_bytes position) fresh into to position is_fresh
        (clipped_inside hdr.num_bytes num_bytes position) room
