-- ===== src/Http/Request/Overrun.antt =====
-- The call of fgets in httpd, whose limit is larger than the buffer.
use linux_unix_development.Common.{
  ℕ, Option, zero, suc, ◌≤◌, ◌≡◌, refl, List, [], ◌∷◌, ◌++◌, not-lt→ltb, length,
  write_out_of_bounds, fault, arith,
}
use linux_unix_development.Common.Strings.{zeros, length-zeros, line}
use linux_unix_development.Common.Strings.Lines.{NoNewline}
use linux_unix_development.System.Writer.{Writer}
use linux_unix_development.Http.Header.{Calendar}
use linux_unix_development.Http.Request.{read_header, FileData, joined, httpd}

-- A line is at least as long as a text without newline at the start of the stream.
length-line :
    (n : ℕ) (x rest : List ℕ)
    → NoNewline x
    → length x ≤ n
    → length x ≤ length (line n (x ++ rest)).0
unfolding line
length-line n [] rest h l = omega arith
length-line zero (c ∷ x) rest h l = absurd (omega arith)
length-line (suc n) (c ∷ x) rest h l =
    rw h.0 (omega (arith, length-line n x rest h.1 (omega arith)))

-- A first line of 512 bytes or more overruns `buf` of 512 bytes, which fgets was told to have 2048:
-- whatever follows on the stream, httpd writes past the end of `buf`.
pub httpd-long_line :
    (w : Writer) (cal : Calendar) (files : List ℕ → Option FileData) (now : ℕ) (s : w.Conn)
    (x rest : List ℕ)
    → NoNewline x
    → 512 ≤ length x
    → length x ≤ 2047
    → (reads : List (List ℕ)) → joined reads ≡ x ++ rest
    → httpd w cal files now reads s ≡ fault write_out_of_bounds
unfolding httpd read_header
httpd-long_line w cal files now s [] rest n l m reads e = absurd (omega arith)
httpd-long_line w cal files now s (c ∷ x) rest n l m reads e =
    let long = length-line 2047 (c ∷ x) rest n m in
    rw
      (
        e,
        not-lt→ltb (length (line 2047 (c ∷ x ++ rest)).0) (length (zeros 512))
            (omega (arith, length-zeros 512)),
      )
      refl
