-- ===== src/Disk.antt =====
-- machine/disk.h and disk.cc: how long a request to the disk takes, and when it may be made. The clock of
-- the machine, stats->totalTicks, is an argument; the transfer of the sector itself is that of OpenFile.
pub mod Latency
use nach_osx.Prelude.{
  ltb, ◌==◌, if◌then◌else◌, Outcome, ok, ◌>>=◌, ◌>>◌, check, ℕ, ◌+◌, ◌-◌, ◌*◌, ◌/◌, ◌%◌, Bool, true,
  false, not, ◌&&◌,
}

abbrev pub sectors_per_track : ℕ
sectors_per_track = 32

abbrev pub num_tracks : ℕ
num_tracks = 32

abbrev pub num_sectors : ℕ
num_sectors = sectors_per_track * num_tracks

-- machine/stats.h
abbrev pub rotation_time : ℕ
rotation_time = 500

abbrev pub seek_time : ℕ
seek_time = 500

pub record DiskState : Type 0 where
  pub active : Bool
  pub last_sector : ℕ
  pub buffer_init : ℕ

pub new_disk : DiskState
new_disk = record { active = false; last_sector = 0; buffer_init = 0 }

-- abs(a - b)
abbrev pub distance : ℕ → ℕ → ℕ
distance a b = if ltb a b then b - a else a - b

-- The seek and, as `*rotation`, the wait for the next sector.
pub time_to_seek : ℕ → ℕ → ℕ → ℕ × ℕ
time_to_seek total_ticks last_sector new_sector =
    let seek =
      distance (new_sector / sectors_per_track) (last_sector / sectors_per_track) * seek_time in
    let over = (total_ticks + seek) % rotation_time in
    (seek, if ltb 0 over then rotation_time - over else 0)

pub modulo_diff : ℕ → ℕ → ℕ
modulo_diff to from =
    (to % sectors_per_track + sectors_per_track - from % sectors_per_track) % sectors_per_track

-- The track buffer serves a read of a sector that has passed the head since the last seek. An int
-- difference below zero is below every ModuloDiff, as zero is not above one.
pub in_track_buffer : ℕ → ℕ → ℕ → ℕ → Bool
in_track_buffer buffer_init new_sector seek time_after =
    (seek == 0)
    && ltb (modulo_diff new_sector (buffer_init / rotation_time))
        ((time_after - buffer_init) / rotation_time)

pub compute_latency : ℕ → DiskState → ℕ → Bool → ℕ
compute_latency total_ticks d new_sector writing =
    let (seek, rotation) = time_to_seek total_ticks d.last_sector new_sector in
    let time_after = total_ticks + seek + rotation in
    if not writing && in_track_buffer d.buffer_init new_sector seek time_after
    then rotation_time
    else seek
      + (rotation + modulo_diff new_sector (time_after / rotation_time) * rotation_time)
      + rotation_time

pub update_last : ℕ → DiskState → ℕ → DiskState
update_last total_ticks d new_sector =
    let (seek, rotate) = time_to_seek total_ticks d.last_sector new_sector in
    record d {
      buffer_init = if seek == 0 then d.buffer_init else total_ticks + seek + rotate;
      last_sector = new_sector;
    }

-- ReadRequest and WriteRequest: after how many ticks the interrupt is due, and the disk at work.
pub request : ℕ → DiskState → ℕ → Bool → Outcome (ℕ × DiskState)
request total_ticks d sector writing = do
  let ticks = compute_latency total_ticks d sector writing
  check (not d.active)
  check (ltb sector num_sectors)
  ok (ticks, update_last total_ticks (record d { active = true }) sector)

pub handle_interrupt : DiskState → DiskState
handle_interrupt d = record d { active = false }
