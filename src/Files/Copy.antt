-- ===== src/Files/Copy.antt =====
-- 02_Files/cpy_file.c: copying a file in blocks of 64 bytes.
pub mod Content
use linux_unix_development.Common.{
  ℕ, zero, suc, ◌+◌, ◌-◌, Bool, true, false, Option, none, some, List, [], ◌∷◌, ltb, if◌then◌else◌,
  length, take, drop, Outcome, ok, out_of_fuel, ◌>>=◌,
}
use linux_unix_development.System.Writer.{Status, success, failure, Writer}
use linux_unix_development.System.Reader.{Reader}

module _ (w : Writer) where
  -- `while (count > 0)`, with `buffer` the part that is left.
  pub write2_loop : (fuel : ℕ) → w.Conn → List ℕ → ℕ → Outcome (Status × w.Conn)
  write2_loop zero s buffer count = out_of_fuel
  write2_loop (suc fuel) s buffer count = elim (ltb 0 count) [
    | false ↦ ok (success, s)
    | true ↦
        let (written, s') = w.send s (take count buffer) in
        elim written [
          | none ↦ ok (failure, s')
          | some n ↦ write2_loop fuel s' (drop n buffer) (count - n)
        ]
  ]

  -- `write2(fd, buffer, count)`, 0 or -1
  pub write2 : w.Conn → List ℕ → ℕ → Outcome (Status × w.Conn)
  write2 s buffer count = write2_loop (suc count) s buffer count

-- Whether the result of write2 is greater than 0.
abbrev pub is_positive : Status → Bool
is_positive success = false
is_positive failure = false

-- The end of main: its value, the number of messages of perror, and both files.
pub record Copied (r : Reader) (w : Writer) : Type 0 where
  pub code : Status
  pub reports : ℕ
  pub source : r.Source
  pub target : w.Conn

module _ (r : Reader) (w : Writer) where
  -- `while ((n = read(fd_r, buffer, BLOCK_SIZE)) > 0)`
  pub copy_loop : (fuel reports : ℕ) → r.Source → w.Conn → Outcome (Copied r w)
  copy_loop zero reports s t = out_of_fuel
  copy_loop (suc fuel) reports s t =
      let (x, s') = r.read s 64 in
      elim x [
        | none ↦ ok (record { code = success; reports = reports; source = s'; target = t })
        | some [] ↦ ok (record { code = success; reports = reports; source = s'; target = t })
        | some (c ∷ cs) ↦ write2 w t (c ∷ cs) (length (c ∷ cs)) >>= λ (v, t').
            copy_loop fuel (if is_positive v then reports + 1 else reports) s' t'
      ]

  -- What main returns, before the loop, where it cannot go on.
  pub data Exit : Type 0 where
    usage open_failed : Exit
    copied : Copied r w → Exit

  -- main, on the number of arguments and on what the two calls of open give.
  pub copy_main : (fuel argc : ℕ) → Option r.Source → Option w.Conn → Outcome Exit
  copy_main fuel argc source target = if ltb argc 3 then ok usage else opened source target
    where
      opened : Option r.Source → Option w.Conn → Outcome Exit
      opened (some s) (some t) = copy_loop fuel 0 s t >>= λ v. ok (copied v)
      opened _ _ = ok open_failed
