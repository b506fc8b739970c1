-- ===== src/Files/Dup.antt =====
-- 02_Files/dup_fd.c: stdout is turned to two files in turns.
pub mod Bytes
pub mod Shared
use linux_unix_development.Common.{
  ℕ, zero, suc, ◌+◌, Bool, Option, none, some, List, [], ◌∷◌, ◌++◌, ◌==◌, if◌then◌else◌, length,
  take, drop,
}
use linux_unix_development.Common.Bytes.{codes}

-- The open files of the process: file1, file2 and what was open at the start.
abbrev pub stdout : ℕ
stdout = 1

abbrev pub stderr : ℕ
stderr = 2

abbrev pub file1 : ℕ
file1 = 3

abbrev pub file2 : ℕ
file2 = 4

-- Which open file a descriptor stands for, and the bytes and the offset of an open file. Descriptors
-- that dup and dup2 make share the offset.
pub record State : Type 0 where
  pub fds : ℕ → Option ℕ
  pub bytes : ℕ → List ℕ
  pub offset : ℕ → ℕ

abbrev pub set_at : {A : Type 0} → ℕ → A → (ℕ → A) → ℕ → A
set_at k v f q = if q == k then v else f q

-- The bytes of a file after a write at an offset; a gap is filled with zeros.
pub put_bytes : ℕ → (text content : List ℕ) → List ℕ
put_bytes zero text content = text ++ drop (length text) content
put_bytes (suc o) text [] = 0 ∷ put_bytes o text []
put_bytes (suc o) text (c ∷ content) = c ∷ put_bytes o text content

-- The open file `f` takes these bytes.
abbrev pub wrote : ℕ → List ℕ → State → State
wrote f x s = record s {
  bytes = set_at f (put_bytes (s.offset f) x (s.bytes f)) s.bytes;
  offset = set_at f (s.offset f + length x) s.offset;
}

-- open without O_TRUNC: the file `f` keeps its bytes.
abbrev pub opened : Option ℕ → ℕ → State → State
opened none f s = s
opened (some fd) f s = record s { fds = set_at fd (some f) s.fds; offset = set_at f 0 s.offset }

abbrev pub dup2 : ℕ → ℕ → State → State
dup2 old new s = record s { fds = set_at new (s.fds old) s.fds }

abbrev pub close : ℕ → State → State
close fd s = record s { fds = set_at fd none s.fds }

-- What a call of write changes that fails, or that takes `n` bytes of the text.
abbrev pub took : Option ℕ → ℕ → List ℕ → State → State
took none f text s = s
took (some n) f text s = wrote f (take n text) s

-- How many bytes of a text a call of write on an open file takes, `none` where it fails. The program
-- does not look at it.
module _ (takes : ℕ → List ℕ → Option ℕ) where
  pub write_to : Option ℕ → List ℕ → State → State
  write_to none text s = s
  write_to (some f) text s = took (takes f text) f text s

  abbrev pub write : ℕ → List ℕ → State → State
  write fd text s = write_to (s.fds fd) text s

  -- test_write
  pub test_write : List ℕ → State → State
  test_write str s = write 1 str s

  -- fd3 and the write to it.
  pub complain : Option ℕ → State → State
  complain none s = s
  complain (some fd3) s =
      write fd3 (codes "Schwerer fehler...\n") (record s { fds = set_at fd3 (s.fds 2) s.fds })

  -- The lines, on the descriptors of the two files.
  pub before_close : (fd1 fd2 : ℕ) → State → State
  before_close fd1 fd2 s0 =
      let s1 = test_write (codes "Zeile 1\n") s0 in
      let s2 = test_write (codes "Zeile 2\n") (dup2 fd1 1 s1) in
      let s3 = test_write (codes "Zeile 3\n") (dup2 fd2 1 s2) in
      let s4 = test_write (codes "Zeile 4\n") s3 in
      let s5 = test_write (codes "Zeile 5\n") (dup2 fd1 1 s4) in
      let s6 = test_write (codes "Zeile 6\n") (dup2 fd2 1 s5) in test_write (codes "Zeile 7\n") s6

  -- main behind the two calls of open.
  pub lines : Option ℕ → (fd1 fd2 : ℕ) → State → State
  lines fd3 fd1 fd2 s = complain fd3 (close fd2 (close fd1 (before_close fd1 fd2 s)))

  -- The exit code and what main leaves. `fd1`, `fd2` and `fd3` are what open and dup give, `none` for -1.
  pub dup_fd_main : (fd1 fd2 fd3 : Option ℕ) → State → ℕ × State
  dup_fd_main fd1 fd2 fd3 s = decide fd1 fd2 (opened fd2 file2 (opened fd1 file1 s))
    where
      decide : Option ℕ → Option ℕ → State → ℕ × State
      decide none b t = (1, t)
      decide (some a) none t = (1, t)
      decide (some a) (some b) t = (0, lines fd3 a b t)
