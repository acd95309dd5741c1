-- ===== src/Examples/Tables.antt =====
-- The table of open files, from its constructor on.
use nach_osx.Prelude.{
  ltb, if◌then◌else◌, replicate, ℤ, pos, minus_one, int_eq, ok, ℕ, ◌<◌, ◌≡◌, refl, ◌≢◌, true, false,
  List, [], ◌∷◌, arith,
}
use nach_osx.BitMap
use nach_osx.OpenFilesTable.{OpenFilesTable, open_file, create}
use nach_osx.Words.{int_word, word_int}
use nach_osx.SystemCalls.{System}
use nach_osx.SystemCalls.Files.{nachos_close}
use nach_osx.SystemCalls.Files.Closing.{Replied, nachos_close-Closed}
use nach_osx.Examples.Calls.{no_host, zeros, calling}
use nach_osx.OpenFilesTable.Start.{is_open, entry, first_entry, IsTable, create-IsTable}
use nach_osx.OpenFilesTable.Opening.{Opened, open_file-Opened}
use nach_osx.OpenFilesTable.Closing.{Closed}

abbrev garbage : List ℤ
garbage = replicate 100 (pos 77)

started :
    (t : OpenFilesTable) × (create (0 ∷ 0 ∷ 0 ∷ 9 ∷ []) garbage ≡ ok t)
    × IsTable t
    × (t.usage ≡ pos 1)
    × ((j : ℕ) → j < 100 → is_open t j ≡ ltb j 3)
    × ((j : ℕ) → entry t j ≡ first_entry garbage j)
unfolding BitMap.div_round_up
started = create-IsTable (0 ∷ 0 ∷ 0 ∷ 9 ∷ []) garbage refl refl

start : OpenFilesTable
start = started.0

start-IsTable : IsTable start
unfolding start
start-IsTable = started.2

-- Handle 0 stands for the Unix handle 0, and still `Open` gives another one.
open_file-Opened_example :
    (r : ℤ) × (t : OpenFilesTable) × (open_file start (pos 0) ≡ ok (r, t))
    × Opened start (pos 0) r t
open_file-Opened_example = open_file-Opened start (pos 0) start-IsTable

two_open : is_open start 2 ≡ true
unfolding start
two_open = started.4 2 (omega arith)

two_words : word_int 2 ≡ pos 2
unfolding word_int
two_words = refl

five_closed : is_open start 5 ≡ false
unfolding start
five_closed = started.4 5 (omega arith)

real_entry : entry start 2 ≢ minus_one
unfolding start
real_entry e = absurd (ground (arith, started.5 2))

-- A program that closes handle 2.
abbrev closing : System ℕ
closing = record (calling 8 2 0 0) { open_files = start }

nachos_close-Closed_example :
    (t' : OpenFilesTable) × (s' : System ℕ) × (nachos_close no_host zeros closing ≡ ok s')
    × Closed start 2 t'
    × Replied
        (record closing { open_files = t'; host = (no_host.close_unix (entry start 2) 0).1 })
        (if int_eq (no_host.close_unix (entry start 2) 0).0 (pos 0)
          then 1
          else int_word (no_host.close_unix (entry start 2) 0).0)
        s'
nachos_close-Closed_example =
    nachos_close-Closed no_host zeros closing refl start-IsTable 2 two_words (omega arith) two_open
      real_entry
