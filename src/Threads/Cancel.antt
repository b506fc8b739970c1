-- ===== src/Threads/Cancel.antt =====
-- 10_Threads/thread14.c: two threads of which one cancels the other, as a random number says.
pub mod Survives
use linux_unix_development.Common.{
  ℕ, zero, suc, ◌%◌, ◌≡◌, refl, Bool, true, false, not, ltb, leb, if◌then◌else◌,
}

-- A thread before its test, behind it, at its end, and cancelled.
pub data Thread : Type 0 where
  asleep tested ended cancelled : Thread

-- zufallszahl, whether the first thread has ended, and the other two: where they are, and whether a
-- pthread_cancel for them is pending.
pub record State : Type 0 where
  pub zufallszahl : ℕ
  pub drawn : Bool
  pub t2 : Thread
  pub t3 : Thread
  pub cancel2 : Bool
  pub cancel3 : Bool

-- After the three threads were made.
abbrev pub start : State
start = record {
  zufallszahl = 0;
  drawn = false;
  t2 = asleep;
  t3 = asleep;
  cancel2 = false;
  cancel3 = false;
}

-- A thread goes on: the test, and its end. A pending cancellation is noticed in sleep and in printf.
pub data Goes : Thread → Thread → Type 0 where
  prints : Goes tested ended

pub data Dies : Thread → Thread → Type 0 where
  in_sleep : Dies asleep cancelled
  in_printf : Dies tested cancelled

-- The tests of cancel_test1 and of cancel_test2.
abbrev pub test1 : State → State
test1 s = record s { t2 = tested; cancel3 = if ltb 25 s.zufallszahl then true else s.cancel3 }

abbrev pub test2 : State → State
test2 s = record s { t3 = tested; cancel2 = if leb s.zufallszahl 25 then true else s.cancel2 }

-- A step. With `late`, the sleep of a second is long enough: no test comes before the number is drawn.
pub data Step (late : Bool) (s : State) : State → Type 0 where
  zufall :
      (rand : ℕ)
      → s.drawn ≡ false
      → Step late s (record s { zufallszahl = rand % 50; drawn = true })
  first_test : s.t2 ≡ asleep → (late ≡ true → s.drawn ≡ true) → Step late s (test1 s)
  second_test : s.t3 ≡ asleep → (late ≡ true → s.drawn ≡ true) → Step late s (test2 s)
  first_goes : {t : Thread} → Goes s.t2 t → Step late s (record s { t2 = t })
  second_goes : {t : Thread} → Goes s.t3 t → Step late s (record s { t3 = t })
  first_dies : {t : Thread} → s.cancel2 ≡ true → Dies s.t2 t → Step late s (record s { t2 = t })
  second_dies : {t : Thread} → s.cancel3 ≡ true → Dies s.t3 t → Step late s (record s { t3 = t })

pub data Reach (late : Bool) : State → Type 0 where
  begin : Reach late start
  next : {s t : State} → Reach late s → Step late s t → Reach late t
