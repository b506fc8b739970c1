-- ===== src/Files/Backward.antt =====
-- 02_Files/backward.c: printing a file from its end to its start.
pub mod Reversed
use linux_unix_development.Common.{
  ℕ, zero, suc, ◌+◌, ◌≤◌, ◌<◌, ◌≡◌, refl, ap, ◌∙◌, sym, inl, inr, Bool, true, false, not, ◌&&◌,
  Option, none, some, List, [], ◌∷◌, ◌++◌, ◌==◌, Bool-cases, if◌then◌else◌, length, length-append,
  get_elem?, arith,
}
use mathlib.Core.List.{reverse, reverse-append}

-- The last result of read: 1, 0 at the end of the file, or -1.
pub data Rv : Type 0 where
  one eof error : Rv

-- What the loop leaves: `rv`, whether `nl` was counted, and what went to stdout.
pub record Done : Type 0 where
  pub rv : Rv
  pub nl : Bool
  pub text : List ℕ

-- The message on stderr at the end.
pub data Message : Type 0 where
  no_message unexpected_eof read_error : Message

-- The file's bytes, and at which offsets a read fails.
module _ (content : List ℕ) (fails : ℕ → Bool) where
  -- `read(fd, &ch, 1)` at the offset `pos`.
  pub read_at : ℕ → Rv × ℕ
  read_at pos = if fails pos then (error, 0) else byte (get_elem? content pos)
    where
      byte : Option ℕ → Rv × ℕ
      byte none = (eof, 0)
      byte (some c) = (one, c)

  -- The body of the loop on a byte: the count of newlines, and what is printed.
  pub put_byte : Bool → ℕ → Bool × List ℕ
  put_byte nl ch = if ch == 10 && not nl then (true, []) else (nl, ch ∷ [])

  -- A round of the loop, on what read gave; `next` is what follows.
  pub round : (next : Bool → List ℕ → Done) → Bool → List ℕ → Rv × ℕ → Done
  round next nl text (one, ch) = next (put_byte nl ch).0 (text ++ (put_byte nl ch).1)
  round next nl text (eof, ch) = record { rv = eof; nl = nl; text = text }
  round next nl text (error, ch) = record { rv = error; nl = nl; text = text }

  -- The loop at the offset `pos`: behind the byte, `lseek(fd, -2, SEEK_CUR)` moves to the offset
  -- before `pos`, and fails at 0.
  pub loop : (pos : ℕ) → Bool → List ℕ → Done
  loop zero nl text =
      round (λ nl' text'. record { rv = one; nl = nl'; text = text' }) nl text (read_at 0)
  loop (suc pos) nl text = round (loop pos) nl text (read_at (suc pos))

  -- `lseek(fd, -1, SEEK_END)`, which fails on an empty file and leaves the offset 0.
  pub start : ℕ → ℕ
  start zero = 0
  start (suc n) = n

  -- bwread: what is on stdout at the end, and the message.
  pub bwread : List ℕ × Message
  unfolding start
  bwread =
      let d = loop (start (length content)) false [] in
      (if d.nl then d.text ++ (10 ∷ []) else d.text, message d.rv)
    where
      message : Rv → Message
      message one = no_message
      message eof = unexpected_eof
      message error = read_error
