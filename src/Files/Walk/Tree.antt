-- ===== src/Files/Walk/Tree.antt =====
-- The lines that ftwalk.c prints for a tree.
use linux_unix_development.Common.{zero, suc, ℕ, ◌≡◌, false, List, [], ◌∷◌, ◌++◌, ◌==◌}
use linux_unix_development.Common.Bytes.{codes}
use linux_unix_development.Files.Walk.{Flag, State, ftw_f, ftw_d, ftw_dnr, ftw_other}
use linux_unix_development.Files.Walk.Depth.{slashes}

abbrev pub NoSlash : List ℕ → Type 0
NoSlash [] = Unit
NoSlash (c ∷ cs) = ((c == b'/') ≡ false) × NoSlash cs

-- The path below the root.
abbrev pub path : List ℕ → List ℕ → List ℕ
path root name = root ++ (b'/' ∷ name)

-- A text a number of times.
abbrev pub times : ℕ → List ℕ → List ℕ
times zero x = []
times (suc n) x = x ++ times n x

-- The end of a line for a file, a directory, a directory that cannot be read, and anything else.
abbrev pub closing : Flag → List ℕ
closing ftw_f = codes "]\n"
closing ftw_d = codes "/]\n"
closing ftw_dnr = codes "/-]\n"
closing ftw_other = codes "???]\n"

-- The line of an entry below the root.
abbrev pub line_of : List ℕ → List ℕ × Flag → List ℕ
line_of root (name, flag) =
    times (suc (slashes name)) (path root name ++ codes "|")
    ++ (codes "---[" ++ (name ++ closing flag))

abbrev pub lines_of : List ℕ → List (List ℕ × Flag) → List ℕ
lines_of root [] = []
lines_of root (e ∷ es) = line_of root e ++ lines_of root es

abbrev pub below : List ℕ → List (List ℕ × Flag) → List (List ℕ × Flag)
below root [] = []
below root ((name, flag) ∷ es) = (path root name, flag) ∷ below root es

abbrev at : List ℕ → State
at out = record { first = false; deep = 0; out = out }
