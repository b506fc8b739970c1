-- ===== src/Files/Rights.antt =====
-- 03_Attributes/my_stat.c: the line that is printed of a file of the working directory.
pub mod Value
use linux_unix_development.Common.{
  ℕ, ◌/◌, ◌%◌, Bool, true, false, Option, none, some, List, [], ◌∷◌, ◌==◌, if◌then◌else◌, Outcome,
  ok, exit, ◌>>=◌,
}
use linux_unix_development.Common.Bytes.{codes}

-- `bits`: the masks S_IRUSR to S_IXOTH.
abbrev pub bits : List ℕ
bits = 256 ∷ 128 ∷ 64 ∷ 32 ∷ 16 ∷ 8 ∷ 4 ∷ 2 ∷ 1 ∷ []

-- `attribut.st_mode & bits[i]`, for a mask with one bit.
abbrev pub is_set : ℕ → ℕ → Bool
is_set mode bit = (mode / bit) % 2 == 1

-- The loop over the bits and the letters of `rwx`.
pub letters : (mode : ℕ) → List ℕ → List ℕ → List ℕ
letters mode (b ∷ bs) (c ∷ cs) =
    let rest = letters mode bs cs in (if is_set mode b then c else b'-') ∷ rest
letters mode _ _ = []

-- l_rwx
pub l_rwx : ℕ → List ℕ
l_rwx mode = letters mode bits (codes "rwxrwxrwx")

-- The kinds of files that are told apart, in the order of the tests.
pub data Kind : Type 0 where
  regular directory character block fifo unknown : Kind

-- S_ISREG and the others compare the bits of S_IFMT.
pub kind_of : ℕ → Kind
kind_of mode =
    let t = (mode / 4096) % 16 in
    if t == 8
    then regular
    else if t == 4
    then directory
    else if t == 2
    then character
    else if t == 6
    then block
    else if t == 1
    then fifo
    else unknown

-- A printed line: the kind, the name and the rights.
pub record Line : Type 0 where
  pub kind : Kind
  pub name : List ℕ
  pub rights : List ℕ

-- What is done with a name, on what stat gives; `rest` is what follows.
pub show : List ℕ → Option ℕ → Outcome (List Line) → Outcome (List Line)
show name none rest = exit 1
show name (some mode) rest =
    rest >>= λ ls. ok (record { kind = kind_of mode; name = name; rights = l_rwx mode } ∷ ls)

-- The loop over the directory; `stat` gives the mode of a name, or `none` for -1.
pub list_dir : (stat : List ℕ → Option ℕ) → List (List ℕ) → Outcome (List Line)
list_dir stat [] = ok []
list_dir stat (name ∷ names) = show name (stat name) (list_dir stat names)

-- main, on what opendir and readdir give.
pub stat_main : (stat : List ℕ → Option ℕ) → Option (List (List ℕ)) → Outcome (List Line)
stat_main stat none = exit 1
stat_main stat (some names) = list_dir stat names
