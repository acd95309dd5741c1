-- ===== src/Examples/Disks.antt =====
-- A disk from its formatting on.
use nach_osx.Prelude.{
  replicate, pos, Outcome, ok, abort, overrun, ok-injective, ℕ, ◌≤◌, ◌≡◌, refl, sym, ◌∙◌, Bool,
  true, false, some, List, [], ◌∷◌, arith,
}
use nach_osx.BitMap
use nach_osx.BitMap.Count.{free_bits, num_clear_lem}
use nach_osx.CString.{strncmp_eq, strncpy}
use nach_osx.Directory
use nach_osx.FileHeader
use nach_osx.FileSystem.{fetch_directory}
use nach_osx.FileSystem.Accounting.{uses}
use nach_osx.Directory.{free_all}
use nach_osx.Directory.{DirectoryEntry}
use nach_osx.FileHeader.{FileHeader}
use nach_osx.FileHeader.Allocation.{sectors_for}
use nach_osx.FileSystem.{Disk, format, fetch_free_map, create, open_file, remove}
use nach_osx.FileSystem.Layout.{Consistent}
use nach_osx.FileSystem.Format.{
  Formatted, taken, own_files, Entries-free_all, Files-free_all, format-Formatted,
}
use nach_osx.FileSystem.Creating.{Created, create-Created}
use nach_osx.FileSystem.Removing.{Removal, remove-Removal}
use nach_osx.FileSystem.Oversize.{create_overruns}
use nach_osx.Directory.Lookup.{lookup}
use nach_osx.FileSystem.Histories.{
  remove-create, Call, creates, opens, removes, run, run-Consistent, open_file-create,
}

abbrev raw_entry : DirectoryEntry
raw_entry = record { in_use = true; sector = pos 3; name = replicate 10 1 }

abbrev raw_header : FileHeader
raw_header = record { num_bytes = 5; num_sectors = 5; data_sectors = replicate 30 (pos 9) }

abbrev raw_disk : Disk
raw_disk = record { free_map_file = []; directory_file = []; header = λ _. raw_header }

abbrev shell : List ℕ
shell = b's' ∷ b'h' ∷ []

formatted :
    (d : Disk) × (format (replicate 32 7) (replicate 10 raw_entry) raw_header raw_header raw_disk
      ≡ ok d)
    × Formatted d
unfolding BitMap.div_round_up
formatted =
    format-Formatted (replicate 32 7) (replicate 10 raw_entry) raw_header raw_header raw_disk refl
      refl (omega arith) refl refl

disk : Disk
disk = formatted.0

reserved : ℕ → ℕ
reserved = own_files disk

disk-Consistent : Consistent reserved disk
unfolding disk reserved
disk-Consistent = formatted.2.consistent

small_file : sectors_for 300 ≤ 30
unfolding BitMap.div_round_up
small_file = omega arith

create-Created_example :
    (r : Bool) × (d : Disk) × (create raw_header shell 300 disk ≡ ok (r, d))
    × Created reserved disk shell 300 r d
create-Created_example =
    create-Created reserved raw_header shell 300 disk disk-Consistent refl small_file

remove-Removal_example :
    (r : Bool) × (d : Disk) × (remove shell disk ≡ ok (r, d)) × Removal reserved disk shell r d
remove-Removal_example = remove-Removal reserved shell disk disk-Consistent

tiny_file : sectors_for 9 ≤ 30
unfolding BitMap.div_round_up
tiny_file = omega arith

abbrev history : List Call
history =
    creates raw_header shell 300 ∷ opens shell ∷ creates raw_header shell 9 ∷ removes shell ∷ []

run-Consistent_example : (d : Disk) × (run disk history ≡ ok d) × Consistent reserved d
run-Consistent_example =
    run-Consistent reserved history disk ((refl, small_file), (tt, ((refl, tiny_file), (tt, tt))))
      disk-Consistent

-- A formatted disk, written out: the first five sectors are in use.
abbrev empty_disk : Disk
empty_disk = record {
  free_map_file = 31 ∷ replicate 31 0;
  directory_file = replicate 10 (record raw_entry { in_use = false });
  header = λ _. raw_header;
}

empty_disk-Consistent : Consistent (taken empty_disk) empty_disk
unfolding fetch_free_map fetch_directory BitMap.div_round_up uses free_all
empty_disk-Consistent = record {
  valid = record { words = refl; stored = refl };
  directory = record {
    entries = Entries-free_all (λ _. raw_header) (replicate 10 raw_entry) (omega arith);
    filled = refl;
  };
  files = Files-free_all (λ _. raw_header) (replicate 10 raw_entry);
  account = λ j lt. omega arith;
}

abbrev outcome_disk : Outcome (Bool × Disk) → Disk
outcome_disk (ok (r, d)) = d
outcome_disk abort = empty_disk
outcome_disk overrun = empty_disk

abbrev made_disk : Disk
unfolding create
made_disk = outcome_disk (create raw_header shell 300 empty_disk)

create_runs : create raw_header shell 300 empty_disk ≡ ok (true, made_disk)
unfolding create BitMap.find BitMap.test BitMap.mark BitMap.num_clear Directory.find Directory.add
    FileHeader.allocate strncmp_eq strncpy BitMap.div_round_up
create_runs = refl

open_file-create_example :
    (h : FileHeader) × (open_file shell made_disk ≡ ok (some h)) × (h.num_bytes ≡ 300)
unfolding strncmp_eq
open_file-create_example =
    open_file-create (taken empty_disk) raw_header shell 300 empty_disk made_disk
      empty_disk-Consistent refl small_file create_runs shell refl

remove-create_example :
    (d : Disk) × (remove shell made_disk ≡ ok (true, d))
    × Consistent (taken empty_disk) d
    × ((n : List ℕ) → lookup d.directory_file n ≡ lookup empty_disk.directory_file n)
    × (free_bits (fetch_free_map d) ≡ free_bits (fetch_free_map empty_disk))
remove-create_example =
    remove-create (taken empty_disk) raw_header shell 300 empty_disk made_disk empty_disk-Consistent
      refl small_file create_runs

room_on_disk : free_bits (fetch_free_map empty_disk) ≡ 1019
unfolding BitMap.num_clear BitMap.test fetch_free_map
room_on_disk =
    ok-injective
      (sym (num_clear_lem (fetch_free_map empty_disk) empty_disk-Consistent.valid) ∙ counted)
  where
    counted : BitMap.num_clear (fetch_free_map empty_disk) ≡ ok 1019
    counted = refl

many_sectors : sectors_for 100_000 ≡ 782
unfolding BitMap.div_round_up
many_sectors = refl

-- 100,000 bytes take 782 sectors; a header has room for 30.
create_overruns_example : create raw_header shell 100_000 empty_disk ≡ overrun
create_overruns_example =
    create_overruns (taken empty_disk) raw_header shell 100_000 empty_disk empty_disk-Consistent
      refl refl refl (omega (arith, many_sectors)) (omega (arith, many_sectors, room_on_disk))

format-Formatted_example :
    (d : Disk) × (format (replicate 32 7) (replicate 10 raw_entry) raw_header raw_header raw_disk
      ≡ ok d)
    × Formatted d
unfolding BitMap.div_round_up
format-Formatted_example =
    format-Formatted (replicate 32 7) (replicate 10 raw_entry) raw_header raw_header raw_disk refl
      refl (omega arith) refl refl
