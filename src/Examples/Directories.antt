-- ===== src/Examples/Directories.antt =====
-- A directory with one file and one free entry.
use nach_osx.Prelude.{replicate, pos, ℕ, ◌≡◌, refl, true, false, List, [], ◌∷◌, ◌++◌}
use nach_osx.CString.{strncmp_eq, strncpy}
use nach_osx.Directory
use nach_osx.Directory.{Directory, find, add}
use nach_osx.Directory.Find.{Answers, find-Answers}
use nach_osx.Directory.Lookup.{IsDirectory}

abbrev shell_name : List ℕ
shell_name = b's' ∷ b'h' ∷ b'e' ∷ b'l' ∷ b'l' ∷ 0 ∷ 0 ∷ 0 ∷ 0 ∷ 0 ∷ []

abbrev small : Directory
small = record {
  table_size = 2;
  table =
      record { in_use = true; sector = pos 6; name = shell_name }
      ∷ record { in_use = false; sector = pos 0; name = replicate 10 1 }
      ∷ [];
}

small-IsDirectory : IsDirectory small
small-IsDirectory = record {
  entries = (refl, λ _. (refl, tt), (refl, λ off. tt, tt));
  filled = refl;
}

-- Names of more than nine characters that differ behind the ninth are one name.
long_names :
    find (add small (replicate 9 b'a' ++ b'x' ∷ []) (pos 9)).1 (replicate 9 b'a' ++ b'y' ∷ [])
    ≡ pos 9
unfolding find add Directory.find_index strncmp_eq strncpy
long_names = refl

find-Answers_example : Answers small.table shell_name (find small shell_name)
find-Answers_example = find-Answers small shell_name
