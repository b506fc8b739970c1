-- ===== src/Files/Dup/Shared.antt =====
-- Which lines of dup_fd.c come into which file.
use linux_unix_development.Common.{
  ℕ, ◌≡◌, ◌≢◌, refl, ap, sym, subst, Bool, true, false, Option, some, List, [], ◌++◌, ◌==◌, ==_iff,
  length, length-append, take-length, arith,
}
use linux_unix_development.Common.Bytes.{codes}
use linux_unix_development.Files.Dup.Bytes.{put_bytes-more, put_bytes-further}
use linux_unix_development.Files.Dup.{
  stdout, stderr, file1, file2, State, put_bytes, wrote, write_to, test_write, opened, dup2,
  before_close, set_at, close, complain, lines, dup_fd_main,
}

-- The open file behind stderr: its own, or the one of stdout, as on a terminal.
abbrev pub err_file : (shared : Bool) → ℕ
err_file true = stdout
err_file false = stderr

err_file-file1 : (shared : Bool) → (err_file shared == file1) ≡ false
err_file-file1 true = refl
err_file-file1 false = refl

err_file-file2 : (shared : Bool) → (err_file shared == file2) ≡ false
err_file-file2 true = refl
err_file-file2 false = refl

-- The process before main: stdout and stderr are open, and open gives new descriptors.
pub record Ready (shared : Bool) (fd1 fd2 : ℕ) (s : State) : Type 0 where
  pub out : s.fds 1 ≡ some stdout
  pub err : s.fds 2 ≡ some (err_file shared)
  pub fd1_new : (fd1 ≢ 1) × (fd1 ≢ 2)
  pub fd2_new : (fd2 ≢ 1) × (fd2 ≢ 2)
  pub apart : fd1 ≢ fd2

-- Every call of write takes all bytes.
abbrev pub TakesAll : (ℕ → List ℕ → Option ℕ) → Type 0
TakesAll takes = (f : ℕ) (x : List ℕ) → takes f x ≡ some (length x)

other : (a b : ℕ) → a ≢ b → (a == b) ≡ false
other a b h = ground (arith, h)

same : (a : ℕ) → (a == a) ≡ true
same a = (==_iff a a).1 refl

-- The state `t` between two lines: stdout stands for `out`, the files have got the texts `x` and `y`, and
-- what was open at the start holds `first`, and `e` up to the offset `o`.
record Between (shared : Bool) (fd1 fd2 : ℕ) (s : State) (first e : List ℕ) (o out : ℕ)
    (x y : List ℕ) (t : State) : Type 0 where
  pub out_is : t.fds 1 ≡ some out
  pub err_is : t.fds 2 ≡ some (err_file shared)
  pub fd1_is : t.fds fd1 ≡ some file1
  pub fd2_is : t.fds fd2 ≡ some file2
  pub bytes_out : t.bytes stdout ≡ first
  pub bytes_err : t.bytes (err_file shared) ≡ e
  pub offset_err : t.offset (err_file shared) ≡ o
  pub bytes1 : t.bytes file1 ≡ put_bytes 0 x (s.bytes file1)
  pub offset1 : t.offset file1 ≡ length x
  pub bytes2 : t.bytes file2 ≡ put_bytes 0 y (s.bytes file2)
  pub offset2 : t.offset file2 ≡ length y

module _ (takes : ℕ → List ℕ → Option ℕ) (full : TakesAll takes) where
  write_to-full : (f : ℕ) (x : List ℕ) (s : State) → write_to takes (some f) x s ≡ wrote f x s
  unfolding write_to
  write_to-full f x s =
      rw (full f x) (ap (λ y. wrote f y s) (take-length (length x) x (omega arith)))

  test_write-full :
      (f : ℕ) (x : List ℕ) (s : State) → s.fds 1 ≡ some f → test_write takes x s ≡ wrote f x s
  unfolding test_write
  test_write-full f x s e = rw e (write_to-full f x s)

  module _ (shared : Bool) (fd1 fd2 : ℕ) (s : State) (r : Ready shared fd1 fd2 s) (first e : List ℕ)
      (o : ℕ) where
    abbrev B : ℕ → List ℕ → List ℕ → State → Type 0
    B out x y t = Between shared fd1 fd2 s first e o out x y t

    -- stdout is turned to a file.
    turned :
        (fd f out : ℕ) (x y : List ℕ) (t : State)
        → t.fds fd ≡ some f
        → B out x y t
        → B f x y (dup2 fd 1 t)
    turned fd f out x y t h b = record {
      out_is = h;
      err_is = b.err_is;
      fd1_is = rw (other fd1 1 r.fd1_new.0) b.fd1_is;
      fd2_is = rw (other fd2 1 r.fd2_new.0) b.fd2_is;
      bytes_out = b.bytes_out;
      bytes_err = b.bytes_err;
      offset_err = b.offset_err;
      bytes1 = b.bytes1;
      offset1 = b.offset1;
      bytes2 = b.bytes2;
      offset2 = b.offset2;
    }

    to_file1 :
        (str x y : List ℕ) (t : State)
        → B file1 x y t
        → B file1 (x ++ str) y (test_write takes str t)
    to_file1 str x y t b =
        subst (B file1 (x ++ str) y) (sym (test_write-full file1 str t b.out_is)) (record {
          out_is = b.out_is;
          err_is = b.err_is;
          fd1_is = b.fd1_is;
          fd2_is = b.fd2_is;
          bytes_out = b.bytes_out;
          bytes_err = rw (err_file-file1 shared) b.bytes_err;
          offset_err = rw (err_file-file1 shared) b.offset_err;
          bytes1 = rw (b.offset1, b.bytes1) (put_bytes-more x str (s.bytes file1));
          offset1 = omega (arith, b.offset1, length-append x str);
          bytes2 = b.bytes2;
          offset2 = b.offset2;
        })

    to_file2 :
        (str x y : List ℕ) (t : State)
        → B file2 x y t
        → B file2 x (y ++ str) (test_write takes str t)
    to_file2 str x y t b =
        subst (B file2 x (y ++ str)) (sym (test_write-full file2 str t b.out_is)) (record {
          out_is = b.out_is;
          err_is = b.err_is;
          fd1_is = b.fd1_is;
          fd2_is = b.fd2_is;
          bytes_out = b.bytes_out;
          bytes_err = rw (err_file-file2 shared) b.bytes_err;
          offset_err = rw (err_file-file2 shared) b.offset_err;
          bytes1 = b.bytes1;
          offset1 = b.offset1;
          bytes2 = rw (b.offset2, b.bytes2) (put_bytes-more y str (s.bytes file2));
          offset2 = omega (arith, b.offset2, length-append y str);
        })

  module _ (shared : Bool) (fd1 fd2 : ℕ) (s : State) (r : Ready shared fd1 fd2 s) where
    abbrev begun : State
    begun = wrote stdout (codes "Zeile 1\n") (opened (some fd2) file2 (opened (some fd1) file1 s))

    abbrev After : ℕ → List ℕ → List ℕ → State → Type 0
    After out x y t =
        Between shared fd1 fd2 s (begun.bytes stdout) (begun.bytes (err_file shared))
          (begun.offset (err_file shared)) out x y t

    abbrev start : State
    start = opened (some fd2) file2 (opened (some fd1) file1 s)

    begin_line : After stdout [] [] (test_write takes (codes "Zeile 1\n") start)
    unfolding put_bytes
    begin_line =
        let out : start.fds 1 ≡ some stdout =
          rw (other 1 fd2 (λ e. r.fd2_new.0 (sym e)), other 1 fd1 (λ e. r.fd1_new.0 (sym e)))
            (r.out) in
        subst (After stdout [] []) (sym (test_write-full stdout (codes "Zeile 1\n") start out))
          (record {
            out_is = out;
            err_is =
                rw (other 2 fd2 (λ e. r.fd2_new.1 (sym e)), other 2 fd1 (λ e. r.fd1_new.1 (sym e)))
                  (r.err);
            fd1_is = rw (other fd1 fd2 r.apart, same fd1) refl;
            fd2_is = rw (same fd2) refl;
            bytes_out = refl;
            bytes_err = refl;
            offset_err = refl;
            bytes1 = refl;
            offset1 = refl;
            bytes2 = refl;
            offset2 = refl;
          })

    all_lines :
        After file2
          (codes "Zeile 2\nZeile 5\n")
          (codes "Zeile 3\nZeile 4\nZeile 6\nZeile 7\n")
          (before_close takes fd1 fd2 start)
    unfolding before_close
    all_lines =
        let first = begun.bytes stdout in
        let e = begun.bytes (err_file shared) in
        let o = begun.offset (err_file shared) in
        let b1 = begin_line in
        let d2 = turned shared fd1 fd2 s r first e o fd1 file1 stdout [] [] _ b1.fd1_is b1 in
        let b2 = to_file1 shared fd1 fd2 s r first e o (codes "Zeile 2\n") [] [] _ d2 in
        let d3 = turned shared fd1 fd2 s r first e o fd2 file2 file1 _ _ _ b2.fd2_is b2 in
        let b3 = to_file2 shared fd1 fd2 s r first e o (codes "Zeile 3\n") _ _ _ d3 in
        let b4 = to_file2 shared fd1 fd2 s r first e o (codes "Zeile 4\n") _ _ _ b3 in
        let d5 = turned shared fd1 fd2 s r first e o fd1 file1 file2 _ _ _ b4.fd1_is b4 in
        let b5 = to_file1 shared fd1 fd2 s r first e o (codes "Zeile 5\n") _ _ _ d5 in
        let d6 = turned shared fd1 fd2 s r first e o fd2 file2 file1 _ _ _ b5.fd2_is b5 in
        let b6 = to_file2 shared fd1 fd2 s r first e o (codes "Zeile 6\n") _ _ _ d6 in
        to_file2 shared fd1 fd2 s r first e o (codes "Zeile 7\n") _ _ _ b6

-- What stands in the open file of stdout and in that of stderr.
abbrev pub Messages : (shared : Bool) → State → State → Type 0
Messages true s t =
    t.bytes stdout
    ≡ put_bytes (s.offset stdout) (codes "Zeile 1\nSchwerer fehler...\n") (s.bytes stdout)
Messages false s t =
    (t.bytes stdout ≡ put_bytes (s.offset stdout) (codes "Zeile 1\n") (s.bytes stdout))
    × (t.bytes stderr ≡ put_bytes (s.offset stderr) (codes "Schwerer fehler...\n") (s.bytes stderr))

-- What the process leaves.
pub record Leaves (shared : Bool) (s t : State) : Type 0 where
  pub messages : Messages shared s t
  pub in1 : t.bytes file1 ≡ put_bytes 0 (codes "Zeile 2\nZeile 5\n") (s.bytes file1)
  pub in2 :
      t.bytes file2 ≡ put_bytes 0 (codes "Zeile 3\nZeile 4\nZeile 6\nZeile 7\n") (s.bytes file2)

module _ (takes : ℕ → List ℕ → Option ℕ) (full : TakesAll takes) where
  -- The state behind the write to fd3.
  abbrev complained : ℕ → (fd1 fd2 : ℕ) → State → State
  complained fd3 fd1 fd2 t = complain takes (some fd3) (close fd2 (close fd1 t))

  complain-wrote :
      (shared : Bool) (fd1 fd2 fd3 : ℕ) (s : State) (r : Ready shared fd1 fd2 s) (t : State)
      → t.fds 2 ≡ some (err_file shared)
      → (u : State) × (complained fd3 fd1 fd2 t
          ≡ wrote (err_file shared) (codes "Schwerer fehler...\n") u)
        × (u.bytes ≡ t.bytes)
        × (u.offset ≡ t.offset)
  unfolding complain
  complain-wrote shared fd1 fd2 fd3 s r t e =
      let u : State = record (close fd2 (close fd1 t)) {
        fds = set_at fd3 (some (err_file shared)) (close fd2 (close fd1 t)).fds;
      } in
      let is : (close fd2 (close fd1 t)).fds 2 ≡ some (err_file shared) =
        rw (other 2 fd2 (λ e. r.fd2_new.1 (sym e)), other 2 fd1 (λ e. r.fd1_new.1 (sym e))) e in
      (u, rw (is, same fd3) (write_to-full takes full (err_file shared) _ u), refl, refl)

  complain-Leaves :
      (shared : Bool) (fd1 fd2 fd3 : ℕ) (s : State) (r : Ready shared fd1 fd2 s) (t : State)
      → After takes full shared fd1 fd2 s r file2
          (codes "Zeile 2\nZeile 5\n")
          (codes "Zeile 3\nZeile 4\nZeile 6\nZeile 7\n")
          t
      → Leaves shared s (complained fd3 fd1 fd2 t)
  complain-Leaves true fd1 fd2 fd3 s r t b =
      let (u, e, bytes, offset) = complain-wrote true fd1 fd2 fd3 s r t b.err_is in
      rw (e, bytes, offset)
        (record {
          messages =
              rw (b.bytes_err, b.offset_err)
                (put_bytes-further (s.offset stdout) (codes "Zeile 1\n")
                  (codes "Schwerer fehler...\n") (s.bytes stdout));
          in1 = b.bytes1;
          in2 = b.bytes2;
        })
  complain-Leaves false fd1 fd2 fd3 s r t b =
      let (u, e, bytes, offset) = complain-wrote false fd1 fd2 fd3 s r t b.err_is in
      rw (e, bytes, offset)
        (record {
          messages = (b.bytes_out, rw (b.bytes_err, b.offset_err) refl);
          in1 = b.bytes1;
          in2 = b.bytes2;
        })

  -- If stdout and stderr are open, on open files of their own or, as on a terminal, on the same one, open
  -- and dup give new descriptors, and every write takes all bytes: main returns 0, and every line is in its
  -- file although stdout is turned to each file twice, since the descriptors that dup2 makes share the
  -- offset, so that a line stands behind the one before. What file1 and file2 held before is overwritten
  -- from the start, and the rest of it stays. The first line goes to the old stdout and the error message
  -- to stderr, which is behind that line where the two share an open file.
  pub dup_fd_main-Leaves :
      (shared : Bool) (fd1 fd2 fd3 : ℕ) (s : State)
      → Ready shared fd1 fd2 s
      → ((dup_fd_main takes (some fd1) (some fd2) (some fd3) s).0 ≡ 0)
        × Leaves shared s (dup_fd_main takes (some fd1) (some fd2) (some fd3) s).1
  unfolding dup_fd_main lines
  dup_fd_main-Leaves shared fd1 fd2 fd3 s r =
      (refl, complain-Leaves shared fd1 fd2 fd3 s r _ (all_lines takes full shared fd1 fd2 s r))
