-- ===== src/Threads/Cancel/Survives.antt =====
-- Which threads of thread14.c are cancelled.
use linux_unix_development.Common.{
  ◌<◌, ◌≤◌, ◌≡◌, refl, inl, inr, true, false, ltb, leb, Bool-cases, arith,
}
use linux_unix_development.Threads.Cancel.{
  Thread, asleep, tested, ended, cancelled, State, start, Goes, prints, Step, zufall, first_test,
  second_test, first_goes, second_goes, first_dies, second_dies, Reach, begin, next,
}

-- A thread is cancelled only by the other one, and only as the number says.
record Inv (s : State) : Type 0 where
  asked2 : s.cancel2 ≡ true → (s.drawn ≡ true) × (leb s.zufallszahl 25 ≡ true)
  asked3 : s.cancel3 ≡ true → (s.drawn ≡ true) × (ltb 25 s.zufallszahl ≡ true)
  dead2 : s.t2 ≡ cancelled → s.cancel2 ≡ true
  dead3 : s.t3 ≡ cancelled → s.cancel3 ≡ true

start-Inv : Inv start
start-Inv = record {
  asked2 = λ h. absurd (let f : false ≡ true = h in cc);
  asked3 = λ h. absurd (let f : false ≡ true = h in cc);
  dead2 = λ h. absurd (let f : asleep ≡ cancelled = h in cc);
  dead3 = λ h. absurd (let f : asleep ≡ cancelled = h in cc);
}

Goes-not : {a b : Thread} {A : Type 0} → Goes a b → b ≡ cancelled → A
Goes-not prints h = absurd (let f : ended ≡ cancelled = h in cc)

Step-Inv : {s t : State} → Step true s t → Inv s → Inv t
Step-Inv {s = s} (zufall rand d) i = record {
  asked2 = λ h. absurd (let (e, l) = i.asked2 h in cc);
  asked3 = λ h. absurd (let (e, l) = i.asked3 h in cc);
  dead2 = i.dead2;
  dead3 = i.dead3;
}
Step-Inv {s = s} (first_test a d) i = record {
  asked2 = i.asked2;
  asked3 = λ h. elim (Bool-cases (ltb 25 s.zufallszahl)) [
    | inl e ↦ (d refl, e)
    | inr e ↦ let h' = rw e at h in i.asked3 h'
  ];
  dead2 = λ h. absurd (let f : tested ≡ cancelled = h in cc);
  dead3 = λ h.
      let k = i.dead3 h in
      elim (Bool-cases (ltb 25 s.zufallszahl)) [ inl e ↦ rw e refl | inr e ↦ rw e k ];
}
Step-Inv {s = s} (second_test a d) i = record {
  asked2 = λ h. elim (Bool-cases (leb s.zufallszahl 25)) [
    | inl e ↦ (d refl, e)
    | inr e ↦ let h' = rw e at h in i.asked2 h'
  ];
  asked3 = i.asked3;
  dead2 = λ h.
      let k = i.dead2 h in
      elim (Bool-cases (leb s.zufallszahl 25)) [ inl e ↦ rw e refl | inr e ↦ rw e k ];
  dead3 = λ h. absurd (let f : tested ≡ cancelled = h in cc);
}
Step-Inv (first_goes g) i = record {
  asked2 = i.asked2;
  asked3 = i.asked3;
  dead2 = λ h. Goes-not g h;
  dead3 = i.dead3;
}
Step-Inv (second_goes g) i = record {
  asked2 = i.asked2;
  asked3 = i.asked3;
  dead2 = i.dead2;
  dead3 = λ h. Goes-not g h;
}
Step-Inv (first_dies c k) i = record {
  asked2 = i.asked2;
  asked3 = i.asked3;
  dead2 = λ h. c;
  dead3 = i.dead3;
}
Step-Inv (second_dies c k) i = record {
  asked2 = i.asked2;
  asked3 = i.asked3;
  dead2 = i.dead2;
  dead3 = λ h. c;
}

Reach-Inv : (s : State) → Reach true s → Inv s
Reach-Inv _ begin = start-Inv
Reach-Inv _ (next r t) = Step-Inv t (Reach-Inv _ r)

-- If no test comes before the number is drawn: in every interleaving and for every number, the two threads
-- are never both cancelled; the second is only if the number is at most 25, the third only if it is more.
pub Reach-survives :
    (s : State)
    → Reach true s
    → ((s.t2 ≡ cancelled) × (s.t3 ≡ cancelled) → ⊥)
      × (s.t2 ≡ cancelled → s.zufallszahl ≤ 25)
      × (s.t3 ≡ cancelled → 25 < s.zufallszahl)
Reach-survives s r =
    let i = Reach-Inv s r in
    (
      λ h.
          let (a, b) = h in
          let (d, e) = i.asked2 (i.dead2 a) in
          let (d', e') = i.asked3 (i.dead3 b) in absurd (ground (arith, e, e')),
      λ h. ground (arith, (i.asked2 (i.dead2 h)).1),
      λ h. ground (arith, (i.asked3 (i.dead3 h)).1),
    )
