-- ===== src/Semaphore/Exclusive.antt =====
-- One process at a time is in the critical section.
use linux_unix_development.Common.{
  ℕ, zero, suc, ◌+◌, ◌≤◌, ◌≡◌, refl, ap, Option, none, some, List, [], ◌∷◌, arith,
}
use linux_unix_development.Semaphore.{
  Phase, begin, absent, created, ready, critical, ended, State, moved, Step, find, miss, create,
  late, set_value, lock, unlock, Run, stop, more, start,
}

-- The processes in the critical section, and those that hold the unit or have to set it.
abbrev in_section : Phase → ℕ
in_section critical = 1
in_section _ = 0

abbrev holds : Phase → ℕ
holds created = 1
holds critical = 1
holds _ = 0

abbrev pub inside : List Phase → ℕ
inside [] = 0
inside (p ∷ ps) = in_section p + inside ps

abbrev holders : List Phase → ℕ
holders [] = 0
holders (p ∷ ps) = holds p + holders ps

in_section-le : (p : Phase) → in_section p ≤ holds p
in_section-le begin = omega arith
in_section-le absent = omega arith
in_section-le created = omega arith
in_section-le ready = omega arith
in_section-le critical = omega arith
in_section-le ended = omega arith

inside-le : (ps : List Phase) → inside ps ≤ holders ps
inside-le [] = omega arith
inside-le (p ∷ ps) = omega (arith, in_section-le p, inside-le ps)

holders-moved :
    (p : Phase) (xs ys : List Phase) → holders (moved p xs ys) ≡ holders xs + holds p + holders ys
holders-moved p [] ys = omega arith
holders-moved p (x ∷ xs) ys = omega (arith, holders-moved p xs ys)

-- The unit is in the semaphore or with one process; without a semaphore there is none.
abbrev Units : Option ℕ → ℕ → Type 0
Units none n = n ≡ 0
Units (some v) n = v + n ≡ 1

Units-same : (o : Option ℕ) (n m : ℕ) → n ≡ m → Units o n → Units o m
Units-same none n m e h = omega (arith, e, h)
Units-same (some v) n m e h = omega (arith, e, h)

Inv : State → Type 0
Inv s = Units s.semaphore (holders s.processes)

-- The holders before and behind a step of one process.
change :
    (ps : List Phase) (p q : Phase) (xs ys : List Phase)
    → ps ≡ moved p xs ys
    → holders ps + holds q ≡ holders (moved q xs ys) + holds p
change ps p q xs ys e = omega (arith, ap holders e, holders-moved p xs ys, holders-moved q xs ys)

Units-some : (o : Option ℕ) (v n : ℕ) → o ≡ some v → Units o n → v + n ≡ 1
Units-some o v n e h = rw e at h

Units-none : (o : Option ℕ) (n : ℕ) → o ≡ none → Units o n → n ≡ 0
Units-none o n e h = rw e at h

-- A process that has created the semaphore holds its unit.
created-alone : (o : Option ℕ) (n : ℕ) → Units o (suc n) → n ≡ 0
created-alone none n h = absurd (omega (arith, h))
created-alone (some v) n h = omega (arith, h)

Step-Inv : {s t : State} → Step s t → Inv s → Inv t
unfolding Inv
Step-Inv {s} (find xs ys v e o) i =
    Units-same s.semaphore _ _ (omega (arith, change s.processes begin ready xs ys e)) i
Step-Inv {s} (miss xs ys e o) i =
    Units-same s.semaphore _ _ (omega (arith, change s.processes begin absent xs ys e)) i
Step-Inv {s} (create xs ys e o) i =
    omega (arith, Units-none s.semaphore _ o i, change s.processes absent created xs ys e)
Step-Inv {s} (late xs ys v e o) i =
    Units-same s.semaphore _ _ (omega (arith, change s.processes absent ended xs ys e)) i
Step-Inv {s} (set_value xs ys e) i =
    let c = change s.processes created ready xs ys e in
    let h : Units s.semaphore (suc (holders (moved ready xs ys))) =
      Units-same s.semaphore _ _ (omega (arith, c)) i in
    omega (arith, created-alone s.semaphore _ h)
Step-Inv {s} (lock xs ys v e o) i =
    omega (arith, Units-some s.semaphore (suc v) _ o i, change s.processes ready critical xs ys e)
Step-Inv {s} (unlock xs ys v e o) i =
    omega (arith, Units-some s.semaphore v _ o i, change s.processes critical ended xs ys e)

Run-Inv : {s t : State} → Run s t → Inv s → Inv t
Run-Inv stop i = i
Run-Inv (more e r) i = Run-Inv r (Step-Inv e i)

start-Inv : (n : ℕ) → Inv (start n)
unfolding Inv
start-Inv zero = refl
start-Inv (suc n) = let i = start-Inv n in omega (arith, i)

held-le : (o : Option ℕ) (n : ℕ) → Units o n → n ≤ 1
held-le none n h = omega (arith, h)
held-le (some v) n h = omega (arith, h)

-- However many processes start without a semaphore, and however their steps interleave: at most one
-- is in the critical section.
pub Run-inside : (n : ℕ) (t : State) → Run (start n) t → inside t.processes ≤ 1
unfolding Inv
Run-inside n t r =
    omega (arith, inside-le t.processes, held-le t.semaphore _ (Run-Inv r (start-Inv n)))
