-- ===== src/Disk/Latency.antt =====
-- How long requests take.
use nach_osx.Prelude.{ℕ, ◌+◌, ◌*◌, ◌/◌, ◌%◌, ◌≤◌, ◌<◌, ◌≡◌, true, arith}
use nach_osx.Disk.{
  sectors_per_track, num_sectors, rotation_time, seek_time, DiskState, distance, time_to_seek,
  modulo_diff, compute_latency,
}

distance_bound : (a b : ℕ) → a < num_sectors → b < num_sectors → distance (a / 32) (b / 32) ≤ 31
distance_bound a b p q = ground arith

-- After the seek and the wait the head is at a sector's edge.
record Seeked (total_ticks : ℕ) (r : ℕ × ℕ) : Type 0 where
  within : r.0 ≤ 31 * seek_time
  short : r.1 < rotation_time
  edge : (total_ticks + r.0 + r.1) % rotation_time ≡ 0

time_to_seek_lem :
    (total_ticks last_sector new_sector : ℕ)
    → last_sector < num_sectors
    → new_sector < num_sectors
    → Seeked total_ticks (time_to_seek total_ticks last_sector new_sector)
unfolding time_to_seek
time_to_seek_lem total_ticks last_sector new_sector old new =
    let far = distance_bound new_sector last_sector new old in ground arith

modulo_diff_lem :
    (to from : ℕ)
    → (modulo_diff to from < sectors_per_track)
      × ((from + modulo_diff to from) % sectors_per_track ≡ to % sectors_per_track)
unfolding modulo_diff
modulo_diff_lem to from = (omega arith, omega arith)

module _ (total_ticks : ℕ) (d : DiskState) (new_sector : ℕ) (old : d.last_sector < num_sectors)
    (new : new_sector < num_sectors) where
  -- A write to a sector of the disk ends at a sector's edge, the one behind the sector that was written.
  pub compute_latency_lands :
      ((total_ticks + compute_latency total_ticks d new_sector true) % rotation_time ≡ 0)
      × ((total_ticks + compute_latency total_ticks d new_sector true)
            / rotation_time
            % sectors_per_track
          ≡ (new_sector + 1) % sectors_per_track)
  unfolding compute_latency
  compute_latency_lands =
      let s = time_to_seek_lem total_ticks d.last_sector new_sector old new in
      let t = time_to_seek total_ticks d.last_sector new_sector in
      let m = modulo_diff_lem new_sector ((total_ticks + t.0 + t.1) / rotation_time) in
      (omega (arith, s.edge), omega (arith, s.edge, m.0, m.1))
