-- ===== src/OpenFile/Updates.antt =====
-- WriteAt changes the bytes that it is given and nothing else of the file and of the disk, and ReadAt
-- reads them back.
use nach_osx.Prelude.{
  ltb, Bool-cases, length, get_or, ok, ℕ, zero, suc, ◌+◌, ◌-◌, ◌*◌, ◌/◌, ◌≤◌, ◌<◌, ◌≡◌, refl, ap,
  ◌∙◌, ◌≢◌, inl, inr, List, [], arith,
}
use nach_osx.FileHeader.{FileHeader, sector_size}
use nach_osx.OpenFile.{Disk, answer, clipped, sector_count, read_at, write_bytes, write_at}
use nach_osx.OpenFile.Buffers.{at, Filled, copy_bytes-Filled}
use nach_osx.OpenFile.Reading.{
  Stored, file_byte, IsFresh, clipped_inside, answer-ok, read_at-Filled,
}
use nach_osx.OpenFile.Writing.{Written, Written-Stored, write_loop-Written}
use nach_osx.OpenFile.Ends.{Low, High, read_first_lem, read_last_lem}

-- `disk'` is `disk` with `count` bytes of the file, from `position` on, replaced by those of `from`.
pub record Updated (hdr : FileHeader) (ss : List ℕ) (disk : Disk) (from : List ℕ)
    (count position : ℕ) (disk' : Disk) : Type 0 where
  pub stored : Stored hdr ss disk'
  pub inside : (k : ℕ) → k < count → file_byte ss disk' (position + k) ≡ at from k
  pub before :
      (k : ℕ) → k < hdr.num_bytes → k < position → file_byte ss disk' k ≡ file_byte ss disk k
  pub behind :
      (k : ℕ)
      → k < hdr.num_bytes
      → position + count ≤ k
      → file_byte ss disk' k ≡ file_byte ss disk k
  pub others :
      (s : ℕ) → ((i : ℕ) → i < length ss → at ss i ≢ s) → get_or disk' s [] ≡ get_or disk s []

module _ (hdr : FileHeader) (ss : List ℕ) (disk : Disk) (stored : Stored hdr ss disk)
    (fresh fresh₁ fresh₂ : ℕ → List ℕ) (is_fresh : IsFresh fresh) (is_fresh₁ : IsFresh fresh₁)
    (is_fresh₂ : IsFresh fresh₂) (from : List ℕ) where
  -- The steps of WriteAt put together.
  Written-Updated :
      (count position : ℕ) (buf₂ buf₃ : List ℕ) (disk' : Disk)
      → 0 < count
      → position + count ≤ hdr.num_bytes
      → Low hdr ss disk count position buf₂
      → High hdr ss disk count position buf₂
      → Filled
          (λ k. at from (0 + k))
          count
          buf₂
          (position - position / sector_size * sector_size)
          buf₃
      → Written ss disk
          (position / sector_size * sector_size)
          ((position / sector_size + sector_count position count) * sector_size)
          (λ k. at buf₃ (k - position / sector_size * sector_size))
          disk'
      → Updated hdr ss disk from count position disk'
  Written-Updated count position buf₂ buf₃ disk' some_bytes fits low high f w = record {
    stored = Written-Stored hdr ss disk disk' _ _ _ w stored;
    inside = λ k lt.
        let start_at : 0 + k ≡ k = omega arith in
        let e : position + k - start ≡ position - start + k = omega arith in
        w.inside (position + k) (omega arith) (omega arith)
        ∙ (ap (at buf₃) e ∙ (f.inside k lt ∙ ap (at from) start_at));
    before = λ k in_file lt. elim (Bool-cases (ltb k start)) [
      | inl out ↦ w.before k (ground arith)
      | inr here ↦
          let behind_start : start ≤ k = ground arith in
          w.inside k behind_start (omega arith)
          ∙ (f.before (k - start) (omega arith) ∙ low k behind_start lt)
    ];
    behind = λ k in_file le. elim (Bool-cases (ltb k end)) [
      | inl here ↦
          let in_front : k < end = ground arith in
          w.inside k (omega arith) in_front
          ∙ (f.behind (k - start) (omega arith) ∙ high k le (omega arith) in_file)
      | inr out ↦ w.behind k (ground arith) (omega (arith, stored.enough))
    ];
    others = w.others;
  }
    where
      start : ℕ
      start = position / sector_size * sector_size

      end : ℕ
      end = (position / sector_size + sector_count position count) * sector_size

  write_bytes-Updated :
      (count position : ℕ)
      → 0 < count
      → position + count ≤ hdr.num_bytes
      → count ≤ length from
      → (disk' : Disk) × (write_bytes fresh fresh₁ fresh₂ hdr disk from count position ≡ ok disk')
        × Updated hdr ss disk from count position disk'
  unfolding write_bytes
  write_bytes-Updated count position some_bytes fits long =
      let first = position / sector_size in
      let n = sector_count position count in
      let size = is_fresh (n * sector_size) in
      let (r₁, buf₁, e₁, same₁, low₁, high₁) =
        read_first_lem hdr ss disk count position stored some_bytes fits fresh₁
          (fresh (n * sector_size)) is_fresh₁ size in
      let (r₂, buf₂, e₂, same₂, low₂, high₂) =
        read_last_lem hdr ss disk count position stored some_bytes fits fresh₂ buf₁ is_fresh₂
          (same₁ ∙ size) low₁ high₁ in
      let (buf₃, e₃, f) =
        copy_bytes-Filled from 0 count buf₂ (position - first * sector_size) (omega arith)
          (omega (arith, same₂, same₁, size)) in
      let (disk', e₄, w) =
        write_loop-Written hdr ss buf₃ first n first disk stored (omega arith)
          (omega (arith, stored.enough)) (omega (arith, f.same_size, same₂, same₁, size)) in
      (
        disk',
        rw (e₁, e₂, e₃) e₄,
        Written-Updated count position buf₂ buf₃ disk' some_bytes fits low₂ high₂ f w,
      )

  updated :
      (count position : ℕ)
      → (0 < count → position + count ≤ hdr.num_bytes)
      → count ≤ length from
      → (disk' : Disk) × (answer count disk
            (write_bytes fresh fresh₁ fresh₂ hdr disk from count position)
          ≡ ok (count, disk'))
        × Updated hdr ss disk from count position disk'
  updated zero position fits long = (
    disk,
    refl,
    record {
      stored = stored;
      inside = λ k lt. absurd (omega arith);
      before = λ k in_file lt. refl;
      behind = λ k in_file le. refl;
      others = λ s none_of. refl;
    },
  )
  updated (suc c) position fits long =
      let (disk', e, u) =
        write_bytes-Updated (suc c) position (omega arith) (fits (omega arith)) long in
      (disk', answer-ok (suc c) disk _ disk' (omega arith) e, u)

  -- WriteAt writes as much of the request as the file has room for, answers how much that was, and
  -- changes no other byte of the file and no sector of another file; the sectors stay whole.
  pub write_at-Updated :
      (num_bytes position : ℕ)
      → clipped hdr.num_bytes num_bytes position ≤ length from
      → (disk' : Disk) × (write_at fresh fresh₁ fresh₂ hdr disk from num_bytes position
          ≡ ok (clipped hdr.num_bytes num_bytes position, disk'))
        × Updated hdr ss disk from (clipped hdr.num_bytes num_bytes position) position disk'
  unfolding write_at
  write_at-Updated num_bytes position long =
      updated (clipped hdr.num_bytes num_bytes position) position
        (clipped_inside hdr.num_bytes num_bytes position) long

  -- What WriteAt wrote, ReadAt reads back: the same count, and the bytes that were written.
  pub read_at-write_at :
      (num_bytes position : ℕ) (fresh₃ : ℕ → List ℕ) (into : List ℕ)
      → IsFresh fresh₃
      → clipped hdr.num_bytes num_bytes position ≤ length from
      → clipped hdr.num_bytes num_bytes position ≤ length into
      → (disk' : Disk) × (into' : List ℕ) × (write_at fresh fresh₁ fresh₂ hdr disk from num_bytes
            position
          ≡ ok (clipped hdr.num_bytes num_bytes position, disk'))
        × (read_at fresh₃ hdr disk' into 0 num_bytes position
            ≡ ok (clipped hdr.num_bytes num_bytes position, into'))
        × ((k : ℕ) → k < clipped hdr.num_bytes num_bytes position → at into' k ≡ at from k)
  read_at-write_at num_bytes position fresh₃ into is_fresh₃ long room =
      let (disk', e, u) = write_at-Updated num_bytes position long in
      let (into', e', f) =
        read_at-Filled hdr ss disk' u.stored fresh₃ into 0 num_bytes position is_fresh₃
          (omega arith) in
      (
        disk',
        into',
        e,
        e',
        λ k lt.
            let start : k ≡ 0 + k = omega arith in
            ap (at into') start ∙ (f.inside k lt ∙ u.inside k lt),
      )
