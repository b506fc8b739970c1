-- ===== src/Threads/Lines/Early.antt =====
-- Runs of thread5.c and thread6.c in which the reader misses the line.
use linux_unix_development.Common.{
  ℕ, ◌+◌, ◌≡◌, refl, ap, ◌∙◌, false, List, [], ◌∷◌, length, drop, arith,
}
use linux_unix_development.Threads.Lines.{
  unlocked, locked, Writer, Reader, show, State, state, start, fgets, write_at, write_step,
  read_step, Reach, begin, write, read,
}
use linux_unix_development.Threads.Lines.Handed.{typed, write_at-nil}

drop-length : (x : List ℕ) → drop (length x) x ≡ []
drop-length [] = refl
drop-length (c ∷ x) = drop-length x

-- Whatever is typed: with the mutex of thread6.c the reader can lock it first, find the file empty and
-- print what its array held before, which the program never set.
pub Reach-early :
    (input old old' : List ℕ)
    → (s : State) × Reach locked input old old' s
      × (s.reader ≡ Reader.done old')
      × (s.writer ≡ Writer.done)
      × (s.file ≡ typed old input)
unfolding start write_step read_step
Reach-early input old old' = (
  state (write_at 0 (typed old input) []) (0 + length (typed old input)) false Writer.done
      (Reader.done old'),
  write
      (write
        (write (write (read (read (read (read (read begin refl) refl) refl) refl) refl) refl) refl)
        refl)
      refl,
  refl,
  refl,
  write_at-nil (typed old input),
)

-- Whatever is typed: without a mutex, as in thread5.c, the reader can go to the start of the file
-- before the line is written and read behind it, so that it misses the line although the line stands
-- in the file.
pub Reach-missed :
    (input old old' : List ℕ)
    → (s : State) × Reach unlocked input old old' s
      × (s.reader ≡ Reader.done old')
      × (s.file ≡ typed old input)
unfolding start write_step read_step
Reach-missed input old old' =
    let x = typed old input in
    let file = write_at 0 x [] in
    let after = state file (0 + length x) false Writer.leave Reader.get in
    let gone : fgets old' (drop (0 + length x) file) ≡ (old', 0) =
      ap (λ f. fgets old' (drop (0 + length x) f)) (write_at-nil x)
      ∙ ap (λ n. fgets old' (drop n x)) {x = 0 + length x} {y = length x} (omega arith)
      ∙ ap (fgets old') (drop-length x) in
    let r : Reach unlocked input old old' after = write (write (read begin refl) refl) refl in
    let shown : Reach unlocked input old old'
        (state file ((0 + length x) + 0) false Writer.leave (show old')) =
      read {s = after} r (rw gone refl) in
    (
      state file ((0 + length x) + 0) false Writer.leave (Reader.done old'),
      read (read shown refl) refl,
      refl,
      write_at-nil x,
    )
