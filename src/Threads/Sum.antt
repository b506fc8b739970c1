-- ===== src/Threads/Sum.antt =====
-- 10_Threads/thread13.c: one thread fills an array and another adds it up, behind a semaphore.
use linux_unix_development.Common.{
  ℕ, zero, suc, ◌+◌, ◌≤◌, ◌<◌, ◌≡◌, refl, ◌⊎◌, inl, inr, Bool, true, false, Option, none, some,
  ◌==◌, ==_iff, ltb, Bool-cases, if◌then◌else◌, arith,
}

-- thread1: in its loop, at sem_getvalue, at its end with the value that it printed.
pub data Writer : Type 0 where
  writing : (i : ℕ) → Writer
  posted : Writer
  reported : (val : ℕ) → Writer

-- thread2: at sem_wait, in its loop, at its end with the sum that it printed.
pub data Adder : Type 0 where
  waiting : Adder
  adding : (i summe : ℕ) → Adder
  printed : (summe : ℕ) → Adder

pub record State : Type 0 where
  pub werte : ℕ → ℕ
  pub sem : ℕ
  pub writer : Writer
  pub adder : Adder

abbrev pub state : (ℕ → ℕ) → ℕ → Writer → Adder → State
state w s p q = record { werte = w; sem = s; writer = p; adder = q }

-- After sem_init and both pthread_create; the array is static.
abbrev pub start : State
start = state (λ j. 0) 0 (writing 0) waiting

abbrev pub write_at : (ℕ → ℕ) → ℕ → ℕ → ℕ → ℕ
write_at w i v j = if j == i then v else w j

-- A step of thread1; `none` waits or is at the end.
unfoldable pub thread1 : Writer → State → Option State
thread1 (writing i) s =
    if ltb i 10
    then some (record s { werte = write_at s.werte i i; writer = writing (suc i) })
    else some (record s { sem = suc s.sem; writer = posted })
thread1 posted s = some (record s { writer = reported s.sem })
thread1 (reported val) s = none

-- sem_wait
pub sem_wait : ℕ → State → Option State
sem_wait zero s = none
sem_wait (suc n) s = some (record s { sem = n; adder = adding 0 0 })

-- A step of thread2.
unfoldable pub thread2 : Adder → State → Option State
thread2 waiting s = sem_wait s.sem s
thread2 (adding i summe) s =
    if ltb i 10
    then some (record s { adder = adding (suc i) (summe + s.werte i) })
    else some (record s { adder = printed summe })
thread2 (printed summe) s = none

-- The states that the threads reach in any interleaving.
pub data Reach : State → Type 0 where
  begin : Reach start
  first : {s t : State} → Reach s → thread1 s.writer s ≡ some t → Reach t
  second : {s t : State} → Reach s → thread2 s.adder s ≡ some t → Reach t

abbrev Filled : (ℕ → ℕ) → ℕ → Type 0
Filled w i = (j : ℕ) → j < i → w j ≡ j

abbrev Past : Writer → Type 0
Past (writing i) = ⊥
Past posted = Unit
Past (reported val) = Unit

-- 0 + 1 + ... + (i - 1)
abbrev below : ℕ → ℕ
below zero = 0
below (suc i) = below i + i

data Inv : State → Type 0 where
  filling : (w : ℕ → ℕ) (i : ℕ) → i ≤ 10 → Filled w i → Inv (state w 0 (writing i) waiting)
  free : (w : ℕ → ℕ) (p : Writer) → Filled w 10 → Past p → Inv (state w 1 p waiting)
  summing :
      (w : ℕ → ℕ) (p : Writer) (i : ℕ)
      → Filled w 10
      → Past p
      → i ≤ 10
      → Inv (state w 0 p (adding i (below i)))
  over : (w : ℕ → ℕ) (p : Writer) → Past p → Inv (state w 0 p (printed 45))

-- A thread that steps, or does not.
abbrev Next : Option State → Type 0
Next none = Unit
Next (some t) = Inv t

Filled-write : (w : ℕ → ℕ) (i : ℕ) → Filled w i → Filled (write_at w i i) (suc i)
Filled-write w i f j l = elim (Bool-cases (j == i)) [
  | inl e ↦ rw e (let e' : j ≡ i = (==_iff j i).0 e in omega (arith, e'))
  | inr e ↦ rw e (f j (ground (arith, l)))
]

thread1-past : (s : State) → Past s.writer → Inv s → Next (thread1 s.writer s)
unfolding thread1
thread1-past _ h (filling w i l f) = absurd h
thread1-past _ h (free w (writing i) f p) = absurd p
thread1-past _ h (free w posted f p) = free w (reported 1) f tt
thread1-past _ h (free w (reported val) f p) = tt
thread1-past _ h (summing w (writing i) k f p l) = absurd p
thread1-past _ h (summing w posted k f p l) = summing w (reported 0) k f tt l
thread1-past _ h (summing w (reported val) k f p l) = tt
thread1-past _ h (over w (writing i) p) = absurd p
thread1-past _ h (over w posted p) = over w (reported 0) tt
thread1-past _ h (over w (reported val) p) = tt

thread1-Inv : (s : State) → Inv s → Next (thread1 s.writer s)
unfolding thread1
thread1-Inv _ (filling w i l f) = elim (Bool-cases (ltb i 10)) [
  | inl e ↦ rw e (filling (write_at w i i) (suc i) (ground arith) (Filled-write w i f))
  | inr e ↦
      rw e (free w posted (λ j k. f j (let m : 10 ≤ i = ground arith in omega (arith, k, m))) tt)
]
thread1-Inv _ (free w p f h) = thread1-past (state w 1 p waiting) h (free w p f h)
thread1-Inv _ (summing w p i f h l) =
    thread1-past (state w 0 p (adding i (below i))) h (summing w p i f h l)
thread1-Inv _ (over w p h) = thread1-past (state w 0 p (printed 45)) h (over w p h)

thread2-Inv : (s : State) → Inv s → Next (thread2 s.adder s)
unfolding thread2 sem_wait
thread2-Inv _ (filling w i l f) = tt
thread2-Inv _ (free w p f h) = summing w p 0 f h (omega arith)
thread2-Inv _ (summing w p i f h l) = elim (Bool-cases (ltb i 10)) [
  | inl e ↦
      let less : i < 10 = ground arith in
      rw (e, f i less) (summing w p (suc i) f h (omega (arith, less)))
  | inr e ↦ let full : i ≡ 10 = ground (arith, l) in rw (e, full) (over w p h)
]
thread2-Inv _ (over w p h) = tt

Reach-Inv : {s : State} → Reach s → Inv s
Reach-Inv begin = filling (λ j. 0) 0 (omega arith) (λ j l. absurd (omega arith))
Reach-Inv (first {s} r e) = let n = thread1-Inv s (Reach-Inv r) in rw e at n
Reach-Inv (second {s} r e) = let n = thread2-Inv s (Reach-Inv r) in rw e at n

Inv-sum : {s : State} → Inv s → (summe : ℕ) → s.adder ≡ printed summe → summe ≡ 45
Inv-sum (filling w i l f) summe e = absurd (cc)
Inv-sum (free w p f h) summe e = absurd (cc)
Inv-sum (summing w p i f h l) summe e = absurd (cc)
Inv-sum (over w p h) summe e = cc

-- Both threads are at their end.
abbrev IsOver : State → Type 0
IsOver s = ((val : ℕ) × (s.writer ≡ reported val)) × (s.adder ≡ printed 45)

abbrev Can : State → Type 0
Can s = (t : State) × ((thread1 s.writer s ≡ some t) ⊎ (thread2 s.adder s ≡ some t))

if-some : (b : Bool) (x y : State) → (t : State) × ((if b then some x else some y) ≡ some t)
if-some true x y = (x, refl)
if-some false x y = (y, refl)

Inv-progress : {s : State} → Inv s → IsOver s ⊎ Can s
unfolding thread1 thread2 sem_wait
Inv-progress (filling w i l f) =
    let (t, e) =
      if-some (ltb i 10) (state (write_at w i i) 0 (writing (suc i)) waiting)
        (state w 1 posted waiting) in
    inr (t, inl e)
Inv-progress (free w p f h) = inr (_, inr refl)
Inv-progress (summing w p i f h l) =
    let (t, e) =
      if-some (ltb i 10) (state w 0 p (adding (suc i) (below i + w i)))
        (state w 0 p (printed (below i))) in
    inr (t, inr e)
Inv-progress (over w (writing i) h) = absurd h
Inv-progress (over w posted h) = inr (_, inl refl)
Inv-progress (over w (reported val) h) = inl ((val, refl), refl)

-- In every interleaving, the sum that thread2 prints is that of the whole array, 45; and a thread can go
-- on, or both are at their end and the sum has been printed.
pub Reach-sum :
    (s : State)
    → Reach s
    → ((summe : ℕ) → s.adder ≡ printed summe → summe ≡ 45)
      × ((((val : ℕ) × (s.writer ≡ reported val)) × (s.adder ≡ printed 45))
          ⊎ ((t : State) × ((thread1 s.writer s ≡ some t) ⊎ (thread2 s.adder s ≡ some t))))
Reach-sum s r = (Inv-sum (Reach-Inv r), Inv-progress (Reach-Inv r))
