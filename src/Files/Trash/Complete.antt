-- ===== src/Files/Trash/Complete.antt =====
-- No write of trash.c is lost.
use linux_unix_development.Common.{
  ℕ, zero, suc, ◌+◌, ◌≡◌, refl, sym, subst, ◌⊎◌, inl, inr, Option, none, some, List, [], ◌∷◌, ◌++◌,
  length, length-append, ◌==◌, Bool-cases, if◌then◌else◌, arith,
}
use linux_unix_development.Files.Dup.{put_bytes}
use linux_unix_development.Files.Dup.Bytes.{put_bytes-end}
use linux_unix_development.Files.Trash.{
  Loop, at_file, at_out, Parent, looping, printed, State, loop_step, wait, parent_step, child_step,
  Reach, begin, parent, child,
}

-- How often a byte occurs.
pub count : ℕ → List ℕ → ℕ
count c [] = 0
count c (d ∷ l) = let n = count c l in if d == c then suc n else n

count-append : (c : ℕ) (l : List ℕ) (d : ℕ) → count c (l ++ (d ∷ [])) ≡ count c l + count c (d ∷ [])
unfolding count
count-append c [] d = omega arith
count-append c (e ∷ l) d = elim (Bool-cases (e == c)) [
  | inl h ↦ rw h (omega (arith, count-append c l d))
  | inr h ↦ rw h (count-append c l d)
]

-- The writes to the file and to stdout that are left.
abbrev files_left : Loop → ℕ
files_left (at_file n) = n
files_left (at_out n) = n

abbrev outs_left : Loop → ℕ
outs_left (at_file n) = n
outs_left (at_out n) = suc n

-- Of the text, `x` bytes 'x' and `y` bytes 'X' are still to be written, and nothing else.
record Missing (x y : ℕ) (text : List ℕ) : Type 0 where
  pub small : count b'x' text + x ≡ 10
  pub large : count b'X' text + y ≡ 10
  pub sum : length text + (x + y) ≡ 20

added-x : (x y : ℕ) (t : List ℕ) → Missing (suc x) y t → Missing x y (t ++ (b'x' ∷ []))
unfolding count
added-x x y t m = record {
  small = omega (arith, m.small, count-append b'x' t b'x');
  large = omega (arith, m.large, count-append b'X' t b'x');
  sum = omega (arith, m.sum, length-append t (b'x' ∷ []));
}

added-X : (x y : ℕ) (t : List ℕ) → Missing x (suc y) t → Missing x y (t ++ (b'X' ∷ []))
unfolding count
added-X x y t m = record {
  small = omega (arith, m.small, count-append b'x' t b'X');
  large = omega (arith, m.large, count-append b'X' t b'X');
  sum = omega (arith, m.sum, length-append t (b'X' ∷ []));
}

-- In the loops, and at the end.
data Inv : State → Type 0 where
  running :
      (p c : Loop) (file out : List ℕ)
      → Missing (files_left p) (files_left c) file
      → Missing (outs_left p) (outs_left c) out
      → Inv (record { parent = looping p; child = c; file = file; offset = length file; out = out })
  over :
      (file out : List ℕ)
      → Missing 0 0 file
      → Missing 0 0 out
      → Inv (record {
        parent = printed;
        child = at_file 0;
        file = file;
        offset = length file;
        out = out ++ (10 ∷ []);
      })

abbrev Next : Option State → Type 0
Next none = Unit
Next (some t) = Inv t

-- The state after a write to the file.
grown :
    (c : ℕ) (p : Parent) (q : Loop) (file out : List ℕ)
    → Inv (record {
      parent = p;
      child = q;
      file = file ++ (c ∷ []);
      offset = length (file ++ (c ∷ []));
      out = out;
    })
    → Inv (record {
      parent = p;
      child = q;
      file = put_bytes (length file) (c ∷ []) file;
      offset = length file + 1;
      out = out;
    })
grown c p q file out i =
    subst
      (λ f. Inv (record { parent = p; child = q; file = f; offset = length file + 1; out = out }))
      (sym (put_bytes-end (c ∷ []) file))
      (subst
        (λ o.
          Inv (record { parent = p; child = q; file = file ++ (c ∷ []); offset = o; out = out }))
        (omega (arith, length-append file (c ∷ []))) i)

parent_step-Inv : (s : State) → Inv s → Next (parent_step s)
unfolding parent_step loop_step wait
parent_step-Inv _ (running (at_file (suc n)) c file out f o) =
    grown b'x' (looping (at_out n)) c file out
      (running (at_out n) c (file ++ (b'x' ∷ [])) out (added-x n (files_left c) file f) o)
parent_step-Inv _ (running (at_out n) c file out f o) =
    running (at_file n) c file (out ++ (b'x' ∷ [])) f (added-x n (outs_left c) out o)
parent_step-Inv _ (running (at_file zero) (at_file zero) file out f o) = over file out f o
parent_step-Inv _ (running (at_file zero) (at_file (suc n)) file out f o) = tt
parent_step-Inv _ (running (at_file zero) (at_out n) file out f o) = tt
parent_step-Inv _ (over file out f o) = tt

child_step-Inv : (s : State) → Inv s → Next (child_step s)
unfolding child_step loop_step
child_step-Inv _ (running p (at_file (suc n)) file out f o) =
    grown b'X' (looping p) (at_out n) file out
      (running p (at_out n) (file ++ (b'X' ∷ [])) out (added-X (files_left p) n file f) o)
child_step-Inv _ (running p (at_out n) file out f o) =
    running p (at_file n) file (out ++ (b'X' ∷ [])) f (added-X (outs_left p) n out o)
child_step-Inv _ (running p (at_file zero) file out f o) = tt
child_step-Inv _ (over file out f o) = tt

Reach-Inv : (s : State) → Reach s → Inv s
unfolding count
Reach-Inv _ begin =
    running (at_file 10) (at_file 10) [] []
      (record { small = omega arith; large = omega arith; sum = omega arith })
      (record { small = omega arith; large = omega arith; sum = omega arith })
Reach-Inv t (parent r e) = subst Next e (parent_step-Inv _ (Reach-Inv _ r))
Reach-Inv t (child r e) = subst Next e (child_step-Inv _ (Reach-Inv _ r))

-- All was written: ten of each byte, and nothing else.
pub record Full (text : List ℕ) : Type 0 where
  pub small : count b'x' text ≡ 10
  pub large : count b'X' text ≡ 10
  pub sum : length text ≡ 20

Missing-Full : (text : List ℕ) → Missing 0 0 text → Full text
Missing-Full text m = record {
  small = omega (arith, m.small);
  large = omega (arith, m.large);
  sum = omega (arith, m.sum);
}

-- Both are at their end, all bytes are in the file, and on stdout with a newline behind them.
pub record Ended (s : State) : Type 0 where
  pub parent : s.parent ≡ printed
  pub child : s.child ≡ at_file 0
  pub file : Full s.file
  pub text : List ℕ
  pub out : s.out ≡ text ++ (10 ∷ [])
  pub shown : Full text

abbrev pub Steps : Option State → Type 0
Steps o = (t : State) × (o ≡ some t)

-- In every interleaving of the writes, a process can go on, or both are at their end and nothing is lost:
-- the file holds ten 'x' and ten 'X' and nothing else, and stdout the same with a newline behind them.
pub Reach-complete :
    (s : State) → Reach s → Steps (parent_step s) ⊎ (Steps (child_step s) ⊎ Ended s)
unfolding parent_step child_step loop_step wait
Reach-complete s r = goes s (Reach-Inv s r)
  where
    goes : (s : State) → Inv s → Steps (parent_step s) ⊎ (Steps (child_step s) ⊎ Ended s)
    goes _ (running (at_file (suc n)) c file out f o) = inl (_, refl)
    goes _ (running (at_out n) c file out f o) = inl (_, refl)
    goes _ (running (at_file zero) (at_file zero) file out f o) = inl (_, refl)
    goes _ (running (at_file zero) (at_file (suc n)) file out f o) = inr (inl (_, refl))
    goes _ (running (at_file zero) (at_out n) file out f o) = inr (inl (_, refl))
    goes _ (over file out f o) = inr (
        inr (record {
          parent = refl;
          child = refl;
          file = Missing-Full file f;
          text = out;
          out = refl;
          shown = Missing-Full out o;
        }))
