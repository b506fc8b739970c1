-- ===== src/Threads/Lines/Handed.antt =====
-- thread8.c: the reader gets the lock from the writer.
use linux_unix_development.Common.{
  ℕ, zero, suc, ◌+◌, ◌<◌, ◌≡◌, refl, ap, ap₂, ◌∙◌, sym, ◌⊎◌, inl, inr, true, false, Option, none,
  some, List, [], ◌∷◌, ◌++◌, append-nil, length, drop, arith,
}
use linux_unix_development.Common.Bytes.{c_string, NoNul}
use linux_unix_development.Common.Strings.{line}
use linux_unix_development.Common.Strings.Lines.{c_string-line, line-line, line-progress}
use linux_unix_development.Threads.Lines.{
  handed, Writer, put, Reader, rewind, show, State, state, start, fgets, write_at, write_step,
  read_step, Reach, begin, write, read,
}

drop-nil : (n : ℕ) → drop {A = ℕ} n [] ≡ []
drop-nil zero = refl
drop-nil (suc n) = refl

-- A text in a file that was empty.
pub write_at-nil : (x : List ℕ) → write_at 0 x [] ≡ x
write_at-nil x = ap (λ y. x ++ y) (drop-nil (0 + length x)) ∙ append-nil x

-- The line that is typed, as the writer has it in its array.
abbrev pub typed : List ℕ → List ℕ → List ℕ
typed old input = (fgets old input).0

fgets-cons :
    (old : List ℕ) (x : List ℕ)
    → 0 < length x
    → fgets old x ≡ (c_string (line 254 x).0, length (line 254 x).0)
fgets-cons old [] h = absurd (omega arith)
fgets-cons old (c ∷ x) h = refl

pub fgets-typed :
    (old old' input : List ℕ)
    → NoNul input
    → 0 < length input
    → fgets old' (typed old input) ≡ (typed old input, length (typed old input))
fgets-typed old old' [] h l = absurd (omega arith)
fgets-typed old old' (c ∷ cs) h l =
    let x = (line 254 (c ∷ cs)).0 in
    let same = c_string-line 254 (c ∷ cs) h in
    ap (fgets old') same
    ∙ fgets-cons old' x (line-progress 254 c cs (omega arith))
    ∙ ap (λ y. (c_string y.0, length y.0)) (line-line 254 (c ∷ cs))
    ∙ ap (λ y. (y, length x)) same
    ∙ ap₂ (λ y z. (y, length z)) (sym same) (sym same)

module _ (input old old' : List ℕ) (clean : NoNul input) (some_byte : 0 < length input) where
  abbrev x : List ℕ
  x = typed old input

  data Inv : State → Type 0 where
    w_get : Inv (state [] 0 true Writer.get Reader.enter)
    w_put : Inv (state [] 0 true (put x) Reader.enter)
    w_leave : (n : ℕ) → Inv (state x n true Writer.leave Reader.enter)
    r_enter : (n : ℕ) → Inv (state x n false Writer.done Reader.enter)
    r_rewind : (n : ℕ) → Inv (state x n true Writer.done rewind)
    r_get : Inv (state x 0 true Writer.done Reader.get)
    r_show : (n : ℕ) → Inv (state x n true Writer.done (show x))
    r_leave : (n : ℕ) → Inv (state x n true Writer.done (Reader.leave x))
    r_done : (n : ℕ) → Inv (state x n false Writer.done (Reader.done x))

  -- A thread that steps, or does not.
  abbrev Next : Option State → Type 0
  Next none = Unit
  Next (some t) = Inv t

  write-Inv : (s : State) → Inv s → Next (write_step (handed true) input old old' s.writer s)
  unfolding write_step
  write-Inv _ w_get = w_put
  write-Inv _ w_put = rw (write_at-nil x) (w_leave (0 + length x))
  write-Inv _ (w_leave n) = r_enter n
  write-Inv _ (r_enter n) = tt
  write-Inv _ (r_rewind n) = tt
  write-Inv _ r_get = tt
  write-Inv _ (r_show n) = tt
  write-Inv _ (r_leave n) = tt
  write-Inv _ (r_done n) = tt

  read-Inv : (s : State) → Inv s → Next (read_step (handed true) input old old' s.reader s)
  unfolding read_step
  read-Inv _ w_get = tt
  read-Inv _ w_put = tt
  read-Inv _ (w_leave n) = tt
  read-Inv _ (r_enter n) = r_rewind n
  read-Inv _ (r_rewind n) = r_get
  read-Inv _ r_get = rw (fgets-typed old old' input clean some_byte) (r_show (0 + length x))
  read-Inv _ (r_show n) = r_leave n
  read-Inv _ (r_leave n) = r_done n
  read-Inv _ (r_done n) = tt

  Reach-Inv : {s : State} → Reach (handed true) input old old' s → Inv s
  unfolding start
  Reach-Inv begin = w_get
  Reach-Inv (write {s} r e) = let n = write-Inv s (Reach-Inv r) in rw e at n
  Reach-Inv (read {s} r e) = let n = read-Inv s (Reach-Inv r) in rw e at n

  -- The writer is done, and the reader has printed the line.
  abbrev pub IsOver : State → Type 0
  IsOver s = (s.writer ≡ Writer.done) × (s.reader ≡ Reader.done x)

  Inv-progress :
      {s : State}
      → Inv s
      → IsOver s
        ⊎ ((t : State) × ((write_step (handed true) input old old' s.writer s ≡ some t)
              ⊎ (read_step (handed true) input old old' s.reader s ≡ some t)))
  unfolding write_step read_step
  Inv-progress w_get = inr (_, inl refl)
  Inv-progress w_put = inr (_, inl refl)
  Inv-progress (w_leave n) = inr (_, inl refl)
  Inv-progress (r_enter n) = inr (_, inr refl)
  Inv-progress (r_rewind n) = inr (_, inr refl)
  Inv-progress r_get = inr (_, inr refl)
  Inv-progress (r_show n) = inr (_, inr refl)
  Inv-progress (r_leave n) = inr (_, inr refl)
  Inv-progress (r_done n) = inl (refl, refl)

  Inv-line : {s : State} → Inv s → (string : List ℕ) → s.reader ≡ Reader.done string → string ≡ x
  Inv-line w_get string e = absurd (cc)
  Inv-line w_put string e = absurd (cc)
  Inv-line (w_leave n) string e = absurd (cc)
  Inv-line (r_enter n) string e = absurd (cc)
  Inv-line (r_rewind n) string e = absurd (cc)
  Inv-line r_get string e = absurd (cc)
  Inv-line (r_show n) string e = absurd (cc)
  Inv-line (r_leave n) string e = absurd (cc)
  Inv-line (r_done n) string e = cc

  -- With the mutex of thread8.c, which main locks and the writer unlocks, if that mutex lets any thread
  -- unlock it, fopen works, and something without a NUL is typed: in every interleaving the string that
  -- the reader has from the file is what fgets gave to the writer, the line that is typed or its first 254
  -- bytes, and a thread can go on unless the writer is done and the reader has put out that string.
  pub Reach-handed :
      (s : State)
      → Reach (handed true) input old old' s
      → ((string : List ℕ) → s.reader ≡ Reader.done string → string ≡ typed old input)
        × (((s.writer ≡ Writer.done) × (s.reader ≡ Reader.done (typed old input)))
            ⊎ ((t : State) × ((write_step (handed true) input old old' s.writer s ≡ some t)
                  ⊎ (read_step (handed true) input old old' s.reader s ≡ some t))))
  Reach-handed s r = (Inv-line (Reach-Inv r), Inv-progress (Reach-Inv r))
