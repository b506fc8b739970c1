-- ===== src/Threads/Lines/Locked.antt =====
-- thread6.c: both threads lock the mutex themselves.
use linux_unix_development.Common.{
  ℕ, ◌+◌, ◌<◌, ◌≡◌, refl, ◌⊎◌, inl, inr, Bool, true, false, Option, none, some, List, [], length,
}
use linux_unix_development.Common.Bytes.{NoNul}
use linux_unix_development.Threads.Lines.{
  locked, Writer, put, Reader, rewind, show, State, state, start, write_step, read_step, Reach,
  begin, write, read,
}
use linux_unix_development.Threads.Lines.Handed.{typed, fgets-typed, write_at-nil}

-- A thread is between its lock and its unlock.
abbrev pub writes : Writer → Bool
writes Writer.enter = false
writes Writer.done = false
writes p = true

abbrev pub reads : Reader → Bool
reads Reader.enter = false
reads (Reader.done string) = false
reads q = true

module _ (input old old' : List ℕ) (clean : NoNul input) (some_byte : 0 < length input) where
  abbrev x : List ℕ
  x = typed old input

  -- The reader is before its lock, or at its end with the line or what its array held.
  abbrev Outside : Reader → Type 0
  Outside Reader.enter = Unit
  Outside rewind = ⊥
  Outside Reader.get = ⊥
  Outside (show string) = ⊥
  Outside (Reader.leave string) = ⊥
  Outside (Reader.done string) = (string ≡ x) ⊎ (string ≡ old')

  data Inv : State → Type 0 where
    nobody : (q : Reader) → Outside q → Inv (state [] 0 false Writer.enter q)
    e_rewind : Inv (state [] 0 true Writer.enter rewind)
    e_get : Inv (state [] 0 true Writer.enter Reader.get)
    e_show : Inv (state [] 0 true Writer.enter (show old'))
    e_leave : Inv (state [] 0 true Writer.enter (Reader.leave old'))
    w_get : (q : Reader) → Outside q → Inv (state [] 0 true Writer.get q)
    w_put : (q : Reader) → Outside q → Inv (state [] 0 true (put x) q)
    w_leave : (n : ℕ) (q : Reader) → Outside q → Inv (state x n true Writer.leave q)
    written : (n : ℕ) (q : Reader) → Outside q → Inv (state x n false Writer.done q)
    r_rewind : (n : ℕ) → Inv (state x n true Writer.done rewind)
    r_get : Inv (state x 0 true Writer.done Reader.get)
    r_show : (n : ℕ) → Inv (state x n true Writer.done (show x))
    r_leave : (n : ℕ) → Inv (state x n true Writer.done (Reader.leave x))

  -- A thread that steps, or does not.
  abbrev Next : Option State → Type 0
  Next none = Unit
  Next (some t) = Inv t

  write-Inv : (s : State) → Inv s → Next (write_step locked input old old' s.writer s)
  unfolding write_step
  write-Inv _ (nobody q o) = w_get q o
  write-Inv _ e_rewind = tt
  write-Inv _ e_get = tt
  write-Inv _ e_show = tt
  write-Inv _ e_leave = tt
  write-Inv _ (w_get q o) = w_put q o
  write-Inv _ (w_put q o) = rw (write_at-nil x) (w_leave (0 + length x) q o)
  write-Inv _ (w_leave n q o) = written n q o
  write-Inv _ (written n q o) = tt
  write-Inv _ (r_rewind n) = tt
  write-Inv _ r_get = tt
  write-Inv _ (r_show n) = tt
  write-Inv _ (r_leave n) = tt

  -- A reader outside that is not at its end waits for the lock.
  waits :
      (f : List ℕ) (n : ℕ) (p : Writer) (q : Reader)
      → Outside q
      → Next (read_step locked input old old' q (state f n true p q))
  unfolding read_step
  waits f n p Reader.enter o = tt
  waits f n p rewind o = absurd o
  waits f n p Reader.get o = absurd o
  waits f n p (show string) o = absurd o
  waits f n p (Reader.leave string) o = absurd o
  waits f n p (Reader.done string) o = tt

  -- It takes the lock where nobody has it.
  takes :
      (f : List ℕ) (n : ℕ) (p : Writer) (q : Reader)
      → Outside q
      → Inv (state f n true p rewind)
      → Next (read_step locked input old old' q (state f n false p q))
  unfolding read_step
  takes f n p Reader.enter o i = i
  takes f n p rewind o i = absurd o
  takes f n p Reader.get o i = absurd o
  takes f n p (show string) o i = absurd o
  takes f n p (Reader.leave string) o i = absurd o
  takes f n p (Reader.done string) o i = tt

  read-Inv : (s : State) → Inv s → Next (read_step locked input old old' s.reader s)
  unfolding read_step
  read-Inv _ (nobody q o) = takes [] 0 Writer.enter q o e_rewind
  read-Inv _ e_rewind = e_get
  read-Inv _ e_get = e_show
  read-Inv _ e_show = e_leave
  read-Inv _ e_leave = nobody (Reader.done old') (inr refl)
  read-Inv _ (w_get q o) = waits [] 0 Writer.get q o
  read-Inv _ (w_put q o) = waits [] 0 (put x) q o
  read-Inv _ (w_leave n q o) = waits x n Writer.leave q o
  read-Inv _ (written n q o) = takes x n Writer.done q o (r_rewind n)
  read-Inv _ (r_rewind n) = r_get
  read-Inv _ r_get = rw (fgets-typed old old' input clean some_byte) (r_show (0 + length x))
  read-Inv _ (r_show n) = r_leave n
  read-Inv _ (r_leave n) = written n (Reader.done x) (inl refl)

  Reach-Inv : {s : State} → Reach locked input old old' s → Inv s
  unfolding start
  Reach-Inv begin = nobody Reader.enter tt
  Reach-Inv (write {s} r e) = let n = write-Inv s (Reach-Inv r) in rw e at n
  Reach-Inv (read {s} r e) = let n = read-Inv s (Reach-Inv r) in rw e at n

  Outside-reads : (q : Reader) → Outside q → reads q ≡ false
  Outside-reads Reader.enter o = refl
  Outside-reads rewind o = absurd o
  Outside-reads Reader.get o = absurd o
  Outside-reads (show string) o = absurd o
  Outside-reads (Reader.leave string) o = absurd o
  Outside-reads (Reader.done string) o = refl

  Outside-string :
      (q : Reader)
      → Outside q
      → (string : List ℕ) → q ≡ Reader.done string
      → (string ≡ x) ⊎ (string ≡ old')
  Outside-string Reader.enter o string e = absurd (cc)
  Outside-string rewind o string e = absurd o
  Outside-string Reader.get o string e = absurd o
  Outside-string (show y) o string e = absurd o
  Outside-string (Reader.leave y) o string e = absurd o
  Outside-string (Reader.done y) (inl h) string e = inl (cc)
  Outside-string (Reader.done y) (inr h) string e = inr (cc)

  Inv-exclusion : {s : State} → Inv s → writes s.writer ≡ true → reads s.reader ≡ false
  Inv-exclusion (nobody q o) w = Outside-reads q o
  Inv-exclusion e_rewind w = absurd (cc)
  Inv-exclusion e_get w = absurd (cc)
  Inv-exclusion e_show w = absurd (cc)
  Inv-exclusion e_leave w = absurd (cc)
  Inv-exclusion (w_get q o) w = Outside-reads q o
  Inv-exclusion (w_put q o) w = Outside-reads q o
  Inv-exclusion (w_leave n q o) w = Outside-reads q o
  Inv-exclusion (written n q o) w = Outside-reads q o
  Inv-exclusion (r_rewind n) w = absurd (cc)
  Inv-exclusion r_get w = absurd (cc)
  Inv-exclusion (r_show n) w = absurd (cc)
  Inv-exclusion (r_leave n) w = absurd (cc)

  Inv-string :
      {s : State}
      → Inv s
      → (string : List ℕ) → s.reader ≡ Reader.done string
      → (string ≡ x) ⊎ (string ≡ old')
  Inv-string (nobody q o) string e = Outside-string q o string e
  Inv-string e_rewind string e = absurd (cc)
  Inv-string e_get string e = absurd (cc)
  Inv-string e_show string e = absurd (cc)
  Inv-string e_leave string e = absurd (cc)
  Inv-string (w_get q o) string e = Outside-string q o string e
  Inv-string (w_put q o) string e = Outside-string q o string e
  Inv-string (w_leave n q o) string e = Outside-string q o string e
  Inv-string (written n q o) string e = Outside-string q o string e
  Inv-string (r_rewind n) string e = absurd (cc)
  Inv-string r_get string e = absurd (cc)
  Inv-string (r_show n) string e = absurd (cc)
  Inv-string (r_leave n) string e = absurd (cc)

  -- With the mutex of thread6.c, and if something without a NUL is typed: in every interleaving the two
  -- threads are never between their locks and unlocks at once, and the reader prints the line that is
  -- typed, whole, or what its array held before.
  pub Reach-locked :
      (s : State)
      → Reach locked input old old' s
      → (writes s.writer ≡ true → reads s.reader ≡ false)
        × ((string : List ℕ)
            → s.reader ≡ Reader.done string
            → (string ≡ typed old input) ⊎ (string ≡ old'))
  Reach-locked s r = (Inv-exclusion (Reach-Inv r), Inv-string (Reach-Inv r))
