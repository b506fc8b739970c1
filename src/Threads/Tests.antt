-- ===== src/Threads/Tests.antt =====
-- The threads in a few interleavings.
use linux_unix_development.Common.{
  ℕ, ◌≡◌, refl, ◌⊎◌, true, false, some, List, [], arith, Bool, ◌≤◌, ◌<◌,
}
use linux_unix_development.Common.Bytes.{codes}
use linux_unix_development.Threads.Cancel
use linux_unix_development.Threads.Cancel.Survives.{Reach-survives}
use linux_unix_development.Threads.Sum
use linux_unix_development.Threads.Sum.{Reach-sum}
use linux_unix_development.Threads.Lines
use linux_unix_development.Threads.Lines.{locked, handed}
use linux_unix_development.Threads.Lines.Handed.{typed, Reach-handed}
use linux_unix_development.Threads.Lines.Early.{Reach-missed}
use linux_unix_development.Threads.Condition
use linux_unix_development.Threads.Condition.Progress.{Reach-no_deadlock}

-- thread1 has written its first number.
abbrev one_written : Sum.State
one_written = Sum.state (Sum.write_at (λ j. 0) 0 0) 0 (Sum.writing 1) Sum.waiting

one_written-Reach : Sum.Reach one_written
unfolding Sum.thread1
one_written-Reach = Sum.first Sum.begin refl

Reach-sum_example :
    ((summe : ℕ) → one_written.adder ≡ Sum.printed summe → summe ≡ 45)
    × ((((val : ℕ) × (one_written.writer ≡ Sum.reported val))
          × (one_written.adder ≡ Sum.printed 45))
        ⊎ ((t : Sum.State) × ((Sum.thread1 one_written.writer one_written ≡ some t)
              ⊎ (Sum.thread2 one_written.adder one_written ≡ some t))))
Reach-sum_example = Reach-sum one_written one_written-Reach

abbrev input : List ℕ
input = codes "hallo\n"

-- The writer of thread8.c has read the line.
abbrev line_read : Lines.State
line_read = Lines.state [] 0 true (Lines.put (typed [] input)) Lines.Reader.enter

line_read-Reach : Lines.Reach (handed true) input [] (codes "?") line_read
unfolding Lines.start Lines.write_step
line_read-Reach = Lines.write Lines.begin refl

Reach-handed_example :
    ((string : List ℕ) → line_read.reader ≡ Lines.Reader.done string → string ≡ typed [] input)
    × (((line_read.writer ≡ Lines.Writer.done)
          × (line_read.reader ≡ Lines.Reader.done (typed [] input)))
        ⊎ ((t : Lines.State) × ((Lines.write_step
                  (handed true)
                  input
                  []
                  (codes "?")
                  line_read.writer
                  line_read
                ≡ some t)
              ⊎ (Lines.read_step (handed true) input [] (codes "?") line_read.reader line_read
                  ≡ some t))))
Reach-handed_example =
    Reach-handed input [] (codes "?") (omega arith) (omega arith) line_read line_read-Reach

-- The reader of thread6.c has the mutex.
abbrev reading : Lines.State
reading = Lines.state [] 0 true Lines.Writer.enter Lines.rewind

reading-Reach : Lines.Reach locked input [] (codes "?") reading
unfolding Lines.start Lines.read_step
reading-Reach = Lines.read Lines.begin refl

Reach-missed_example :
    (s : Lines.State) × Lines.Reach Lines.unlocked input [] (codes "?") s
    × (s.reader ≡ Lines.Reader.done (codes "?"))
    × (s.file ≡ typed [] input)
Reach-missed_example = Reach-missed input [] (codes "?")

-- A client of thread12.c sleeps.
abbrev asleep : Condition.State
asleep =
    Condition.state (record { held = false; vorhanden = false; geteilt = 0 })
      (Condition.server_head 4) (Condition.sleeping 1) Condition.Client.locking

asleep-Reach : Condition.Reach true asleep
asleep-Reach =
    Condition.next (Condition.next Condition.begin (Condition.first (Condition.Move.lock refl)))
      (Condition.first (Condition.sleep 1 refl))

Reach-no_deadlock_example :
    (((asleep.server ≡ Condition.joining)
        × (asleep.one ≡ Condition.done)
        × (asleep.two ≡ Condition.done))
      ⊎ ((t : Condition.State) × Condition.Step false asleep t))
    × (asleep.server ≡ Condition.joining
        → (Condition.Sleeps asleep.one → ⊥) × (Condition.Sleeps asleep.two → ⊥))
Reach-no_deadlock_example = Reach-no_deadlock true asleep asleep-Reach

abbrev asked : Cancel.State
asked = Cancel.test1 (record Cancel.start { zufallszahl = 30; drawn = true })

asked-Reach : (late : Bool) → Cancel.Reach late asked
asked-Reach late =
    Cancel.next (Cancel.next Cancel.begin (Cancel.zufall 80 refl))
      (Cancel.first_test refl (λ h. refl))

Reach-survives_example :
    ((asked.t2 ≡ Cancel.cancelled) × (asked.t3 ≡ Cancel.cancelled) → ⊥)
    × (asked.t2 ≡ Cancel.cancelled → asked.zufallszahl ≤ 25)
    × (asked.t3 ≡ Cancel.cancelled → 25 < asked.zufallszahl)
Reach-survives_example = Reach-survives asked (asked-Reach true)

-- Without the wait: the third thread tests 0 before the number is drawn, the second the number.
abbrev both : Cancel.State
both = record {
  zufallszahl = 30;
  drawn = true;
  t2 = Cancel.cancelled;
  t3 = Cancel.cancelled;
  cancel2 = true;
  cancel3 = true;
}

both-Reach : Cancel.Reach false both
both-Reach =
    let never : false ≡ true → false ≡ true = λ h. h in
    let r1 = Cancel.next Cancel.begin (Cancel.second_test refl never) in
    let r2 = Cancel.next r1 (Cancel.zufall 80 refl) in
    let r3 = Cancel.next r2 (Cancel.first_test refl (λ h. refl)) in
    let r4 = Cancel.next r3 (Cancel.first_dies refl Cancel.in_printf) in
    Cancel.next r4 (Cancel.second_dies refl Cancel.in_printf)
