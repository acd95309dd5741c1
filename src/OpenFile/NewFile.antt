-- ===== src/OpenFile/NewFile.antt =====
-- A header that Allocate filled is one that ReadAt and WriteAt can use.
use nach_osx.Prelude.{
  length, get_or, ℤ, pos, minus_one, ok, ℕ, zero, suc, ◌+◌, ◌*◌, ◌/◌, ◌≤◌, ◌<◌, ◌≡◌, refl, ap, ◌∙◌,
  true, List, [], ◌∷◌, arith,
}
use nach_osx.BitMap.{BitMap}
use nach_osx.BitMap.Laws.{IsValid}
use nach_osx.FileSystem.{disk_sectors}
use nach_osx.FileHeader.{FileHeader, sector_size, num_direct, allocate}
use nach_osx.FileHeader.Sectors.{has, Distinct, Holds}
use nach_osx.FileHeader.Allocation.{sectors_for, allocate_granted}
use nach_osx.FileHeader.Deallocation.{sector_inside}
use nach_osx.OpenFile.{Disk}
use nach_osx.OpenFile.Buffers.{at}
use nach_osx.OpenFile.Reading.{Stored}

at-has : (ss : List ℕ) (i : ℕ) → i < length ss → has (at ss i) ss ≡ true
at-has [] i lt = absurd (omega arith)
at-has (s ∷ ss) zero lt = ground arith
at-has (s ∷ ss) (suc i) lt = ground (arith, at-has ss i)

at-Distinct :
    (ss : List ℕ) (i j : ℕ)
    → Distinct ss
    → i < length ss
    → j < length ss
    → at ss i ≡ at ss j
    → i ≡ j
at-Distinct [] i j d lt lt' e = absurd (omega arith)
at-Distinct (s ∷ ss) zero zero d lt lt' e = refl
at-Distinct (s ∷ ss) zero (suc j) d lt lt' e =
    absurd (ground (arith, at-has ss j, ap (λ x. has x ss) e))
at-Distinct (s ∷ ss) (suc i) zero d lt lt' e =
    absurd (ground (arith, at-has ss i, ap (λ x. has x ss) e))
at-Distinct (s ∷ ss) (suc i) (suc j) d lt lt' e =
    ap suc (at-Distinct ss i j d.1 (omega arith) (omega arith) e)

at-Holds :
    (ds : List ℤ) (start : ℕ) (ss : List ℕ) (i : ℕ)
    → Holds ds start ss
    → i < length ss
    → get_or ds (start + i) minus_one ≡ pos (at ss i)
at-Holds ds start [] i h lt = absurd (omega arith)
at-Holds ds start (s ∷ ss) zero h lt = ap (λ n. get_or ds n minus_one) (omega arith) ∙ h.0
at-Holds ds start (s ∷ ss) (suc i) h lt =
    ap (λ n. get_or ds n minus_one) (omega arith) ∙ at-Holds ds (start + 1) ss i h.1 (omega arith)

room_for :
    (size n : ℕ)
    → ((offset : ℕ) → offset < size → offset / sector_size < n)
    → size ≤ n * sector_size
room_for zero n inside = omega arith
room_for (suc size) n inside = omega (arith, inside size (omega arith))

-- Where Allocate was granted on the map of a disk with whole sectors, the file is one that ReadAt and
-- WriteAt can use: its sectors are distinct sectors of the disk, and enough for its bytes.
pub allocate-Stored :
    (h h' : FileHeader) (m m' : BitMap) (size : ℕ) (disk : Disk)
    → IsValid m
    → length h.data_sectors ≡ num_direct
    → m.num_bits ≡ disk_sectors
    → length disk ≡ disk_sectors
    → ((s : ℕ) → s < disk_sectors → length (get_or disk s []) ≡ sector_size)
    → allocate h m size ≡ ok (true, h', m')
    → (ss : List ℕ) × Stored h' ss disk × (h'.num_bytes ≡ size)
allocate-Stored h h' m m' size disk v room bits disk_size whole granted =
    let (fits, f) = allocate_granted h h' m m' size v room granted in
    (
      f.taken,
      record {
        held = λ i lt.
            ap (λ n. get_or h'.data_sectors n minus_one) (omega arith)
            ∙ at-Holds h'.data_sectors 0 f.taken i f.held lt;
        room = omega (arith, f.room, room, f.count, fits);
        on_disk =
            λ i lt. omega (arith, (f.allocated.fresh (at f.taken i) (at-has f.taken i lt)).0, bits);
        whole = whole;
        disk_size = disk_size;
        distinct = λ i j lt lt' e. at-Distinct f.taken i j f.allocated.distinct lt lt' e;
        enough = omega (
          arith,
          f.bytes,
          f.count,
          room_for size (sectors_for size) (λ offset lt. sector_inside offset size lt),
        );
      },
      f.bytes,
    )
