-- ===== src/OpenFile/Writing.antt =====
-- What the loop of WriteAt writes: whole sectors of the file, and no other sector of the disk.
use nach_osx.Prelude.{
  ltb, lt→ltb, Bool-cases, length, get_or, set, length-set, get_or-set_self, get_or-set_ne, pos, ok,
  ℕ, zero, suc, ◌+◌, ◌-◌, ◌*◌, ◌/◌, ◌%◌, ◌≤◌, ◌<◌, ◌≡◌, refl, sym, ap, ◌∙◌, subst, ◌≢◌, inl, inr,
  List, [], ◌∷◌, arith,
}
use nach_osx.FileSystem.{disk_sectors}
use nach_osx.FileHeader.{FileHeader, sector_size}
use nach_osx.FileHeader.Sectors.{byte_to_sector_lem}
use nach_osx.OpenFile.{Disk, write_sector, write_loop}
use nach_osx.OpenFile.Buffers.{at, copy_bytes-Filled}
use nach_osx.OpenFile.Reading.{Stored, file_byte}

-- `disk'` is `disk` with the bytes from `lo` up to `hi` of the file given by `g`.
pub record Written (ss : List ℕ) (disk : Disk) (lo hi : ℕ) (g : ℕ → ℕ) (disk' : Disk) : Type 0 where
  pub same_size : length disk' ≡ length disk
  pub whole : (s : ℕ) → length (get_or disk' s []) ≡ length (get_or disk s [])
  pub inside : (k : ℕ) → lo ≤ k → k < hi → file_byte ss disk' k ≡ g k
  pub before : (k : ℕ) → k < lo → file_byte ss disk' k ≡ file_byte ss disk k
  pub behind :
      (k : ℕ) → hi ≤ k → k < length ss * sector_size → file_byte ss disk' k ≡ file_byte ss disk k
  pub others :
      (s : ℕ) → ((i : ℕ) → i < length ss → at ss i ≢ s) → get_or disk' s [] ≡ get_or disk s []

pub Written-Stored :
    (hdr : FileHeader) (ss : List ℕ) (disk disk' : Disk) (lo hi : ℕ) (g : ℕ → ℕ)
    → Written ss disk lo hi g disk'
    → Stored hdr ss disk
    → Stored hdr ss disk'
Written-Stored hdr ss disk disk' lo hi g w stored = record {
  held = stored.held;
  room = stored.room;
  on_disk = stored.on_disk;
  whole = λ s lt. w.whole s ∙ stored.whole s lt;
  disk_size = w.same_size ∙ stored.disk_size;
  distinct = stored.distinct;
  enough = stored.enough;
}

Written-Written :
    (ss : List ℕ) (lo mid hi : ℕ) (g : ℕ → ℕ) (disk disk₁ disk₂ : Disk)
    → lo ≤ mid
    → mid ≤ hi
    → mid ≤ length ss * sector_size
    → Written ss disk lo mid g disk₁
    → Written ss disk₁ mid hi g disk₂
    → Written ss disk lo hi g disk₂
Written-Written ss lo mid hi g disk disk₁ disk₂ low high room p q = record {
  same_size = q.same_size ∙ p.same_size;
  whole = λ s. q.whole s ∙ p.whole s;
  inside = λ k le lt. elim (Bool-cases (ltb k mid)) [
    | inl here ↦ q.before k (ground arith) ∙ p.inside k le (ground arith)
    | inr there ↦ q.inside k (ground arith) lt
  ];
  before = λ k lt. q.before k (omega arith) ∙ p.before k lt;
  behind = λ k le lt. q.behind k le lt ∙ p.behind k (omega arith) lt;
  others = λ s none_of. q.others s none_of ∙ p.others s none_of;
}

length-get_or-set :
    (disk : Disk) (s j : ℕ) (bytes : List ℕ)
    → length bytes ≡ length (get_or disk s [])
    → length (get_or (set disk s bytes) j []) ≡ length (get_or disk j [])
length-get_or-set [] s j bytes same = refl
length-get_or-set (x ∷ disk) zero zero bytes same = same
length-get_or-set (x ∷ disk) zero (suc j) bytes same = refl
length-get_or-set (x ∷ disk) (suc s) zero bytes same = refl
length-get_or-set (x ∷ disk) (suc s) (suc j) bytes same = length-get_or-set disk s j bytes same

module _ (hdr : FileHeader) (ss : List ℕ) (buf : List ℕ) (first : ℕ) where
  abbrev from_buffer : ℕ → ℕ
  from_buffer k = at buf (k - first * sector_size)

  -- One sector.
  write_sector-Written :
      (disk : Disk) (i : ℕ)
      → Stored hdr ss disk
      → first ≤ i
      → i < length ss
      → (i - first + 1) * sector_size ≤ length buf
      → (disk' : Disk) × (write_sector disk (pos (at ss i)) buf ((i - first) * sector_size)
          ≡ ok disk')
        × Written ss disk (i * sector_size) ((i + 1) * sector_size) from_buffer disk'
  unfolding write_sector
  write_sector-Written disk i stored start inside room =
      let s = at ss i in
      let to = (i - first) * sector_size in
      let there : s < disk_sectors = stored.on_disk i inside in
      let (bytes, e, f) =
        copy_bytes-Filled buf to sector_size (get_or disk s []) 0 (omega arith)
          (omega (arith, stored.whole s there)) in
      (
        set disk s bytes,
        rw (lt→ltb s disk_sectors there, e) refl,
        record {
          same_size = length-set disk s bytes;
          whole = λ j. length-get_or-set disk s j bytes f.same_size;
          inside = λ k le lt.
              let same : k / sector_size ≡ i = omega arith in
              let place : to + k % sector_size ≡ k - first * sector_size = omega arith in
              let start_at : k % sector_size ≡ 0 + k % sector_size = omega arith in
              rw (same, get_or-set_self disk s bytes [] (omega (arith, stored.disk_size)))
                (ap (at bytes) start_at
                  ∙ (f.inside (k % sector_size) (omega arith) ∙ ap (at buf) place));
          before = λ k lt. elsewhere bytes k (omega arith) (omega arith);
          behind = λ k le lt. elsewhere bytes k (omega arith) (omega arith);
          others = λ j none_of. get_or-set_ne disk s j bytes [] (none_of i inside);
        },
      )
    where
      elsewhere :
          (bytes : List ℕ) (k : ℕ)
          → k / sector_size < length ss
          → k / sector_size ≢ i
          → file_byte ss (set disk (at ss i) bytes) k ≡ file_byte ss disk k
      elsewhere bytes k lt apart =
          ap (λ l. at l (k % sector_size))
            (get_or-set_ne disk (at ss i) (at ss (k / sector_size)) bytes []
              (λ e. apart (sym (stored.distinct i (k / sector_size) inside lt e))))

  pub write_loop-Written :
      (n i : ℕ) (disk : Disk)
      → Stored hdr ss disk
      → first ≤ i
      → i + n ≤ length ss
      → (i - first + n) * sector_size ≤ length buf
      → (disk' : Disk) × (write_loop n i first hdr disk buf ≡ ok disk')
        × Written ss disk (i * sector_size) ((i + n) * sector_size) from_buffer disk'
  unfolding write_loop
  write_loop-Written zero i disk stored start end room = (
    disk,
    refl,
    record {
      same_size = refl;
      whole = λ s. refl;
      inside = λ k le lt. absurd (omega arith);
      before = λ k lt. refl;
      behind = λ k le lt. refl;
      others = λ s none_of. refl;
    },
  )
  write_loop-Written (suc n) i disk stored start end room =
      let (disk₁, e₁, w₁) = write_sector-Written disk i stored start (omega arith) (omega arith) in
      let (disk₂, e₂, w₂) =
        write_loop-Written n (i + 1) disk₁ (Written-Stored hdr ss disk disk₁ _ _ _ w₁ stored)
          (omega arith) (omega arith) (omega arith) in
      let same_end : (i + 1 + n) * sector_size ≡ (i + suc n) * sector_size = omega arith in
      (
        disk₂,
        rw
            (
              byte_to_sector_lem hdr i (at ss i) (omega (arith, stored.room))
                  (stored.held i (omega arith)),
              e₁,
            )
            e₂,
        Written-Written ss (i * sector_size) ((i + 1) * sector_size) ((i + suc n) * sector_size)
            from_buffer disk disk₁ disk₂ (omega arith) (omega arith) (omega arith) w₁
            (subst (λ hi. Written ss disk₁ ((i + 1) * sector_size) hi from_buffer disk₂) same_end
              w₂),
      )
