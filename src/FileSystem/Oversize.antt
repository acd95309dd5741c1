-- ===== src/FileSystem/Oversize.antt =====
-- `FileSystem::Create` for a file of more than NumDirect sectors.
use nach_osx.Prelude.{
  length, ℤ, pos, minus_one, ok, overrun, ℕ, ◌<◌, ◌≡◌, refl, ap, ◌∙◌, inl, inr, Bool, true, false,
  none, List, arith,
}
use nach_osx.BitMap
use nach_osx.BitMap.{BitMap}
use nach_osx.BitMap.Laws.{is_marked, Updates}
use nach_osx.BitMap.Search.{Found, full, first, find_lem}
use nach_osx.BitMap.Count.{free_bits, free_bits-full, free_bits-mark}
use nach_osx.Directory
use nach_osx.Directory.{Directory}
use nach_osx.Directory.Lookup.{lookup, find-lookup}
use nach_osx.Directory.Update.{has_room, Added, refused, inserted, add-Added}
use nach_osx.FileHeader.{FileHeader, num_direct}
use nach_osx.FileHeader.Allocation.{sectors_for, allocate_overruns}
use nach_osx.FileSystem.{Disk, fetch_free_map, fetch_directory, create}
use nach_osx.FileSystem.Layout.{Consistent}

module _ (reserved : ℕ → ℕ) (memory : FileHeader) (name : List ℕ) (size : ℕ) (d : Disk)
    (c : Consistent reserved d) (room : length memory.data_sectors ≡ num_direct)
    (l : lookup d.directory_file name ≡ none) (some_room : has_room d.directory_file ≡ true)
    (large : num_direct < sectors_for size)
    (enough : sectors_for size < free_bits (fetch_free_map d)) where
  new_name : Directory.find (fetch_directory d) name ≡ minus_one
  unfolding fetch_directory
  new_name = rw (find-lookup (fetch_directory d) name, l)

  overruns_at :
      (s : ℕ) (m₁ : BitMap)
      → BitMap.find (fetch_free_map d) ≡ ok (pos s, m₁)
      → s < (fetch_free_map d).num_bits
      → is_marked (fetch_free_map d) s ≡ false
      → Updates (fetch_free_map d) s true m₁
      → (added : Bool) (dir : Directory)
      → Directory.add (fetch_directory d) name (pos s) ≡ (added, dir)
      → added ≡ true
      → create memory name size d ≡ overrun
  unfolding create
  overruns_at s m₁ e lt free u added dir ea yes_added = rw (
    new_name,
    e,
    ea,
    yes_added,
    allocate_overruns memory m₁ size u.valid room large (omega (arith, free_bits-mark s lt free u)),
  )

  -- Nothing bounds the size of a new file by what a header has room for: on a consistent disk with
  -- room for the name and the sectors, a file of more than NumDirect sectors makes `Create` write past
  -- the end of the header's table.
  pub create_overruns : create memory name size d ≡ overrun
  unfolding fetch_directory
  create_overruns = by_search (find_lem (fetch_free_map d) c.valid)
    where
      by_added :
          (s : ℕ) (m₁ : BitMap)
          → BitMap.find (fetch_free_map d) ≡ ok (pos s, m₁)
          → s < (fetch_free_map d).num_bits
          → is_marked (fetch_free_map d) s ≡ false
          → Updates (fetch_free_map d) s true m₁
          → Added
              (fetch_directory d)
              name
              (pos s)
              (Directory.add (fetch_directory d) name (pos s)).0
              (Directory.add (fetch_directory d) name (pos s)).1
          → create memory name size d ≡ overrun
      by_added s m₁ e lt free u (refused (inl known) _ _) = absurd (known l)
      by_added s m₁ e lt free u (refused (inr no_room) _ _) = cc
      by_added s m₁ e lt free u (inserted _ _ r _ _) = overruns_at s m₁ e lt free u _ _ refl r

      by_search :
          (r : ℤ) × (m : BitMap) × (BitMap.find (fetch_free_map d) ≡ ok (r, m))
            × Found (fetch_free_map d) r m
          → create memory name size d ≡ overrun
      by_search (r, m, e, full _ _ all) =
          absurd (omega (arith, free_bits-full (fetch_free_map d) all))
      by_search (r, m, e, first s is lt free _ u) =
          by_added s m (e ∙ ap (λ x. ok (x, m)) is) lt free u
            (add-Added (fetch_directory d) name (pos s) c.directory)
