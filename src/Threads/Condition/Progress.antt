-- ===== src/Threads/Condition/Progress.antt =====
-- No client of thread12.c sleeps for ever.
use linux_unix_development.Common.{
  ℕ, ◌≡◌, refl, ap, ◌∙◌, ◌⊎◌, inl, inr, Bool, true, false, ◌==◌, ==_iff, Bool-cases, arith,
}
use linux_unix_development.Threads.Condition.{
  Shared, Client, done, testing, sleeping, woken, Server, setting, signalling, joining, State,
  state, Move, sleep, relock, work, Serve, set, Sleeps, Step, first, second, main, signal_first,
  signal_second, signal_nobody, Reach,
}
use linux_unix_development.Threads.Condition.Wakes.{
  holds, server_holds, bit, sleeps, signals, Inv, Reach-Inv,
}

-- A step that needs no return of pthread_cond_wait without a signal.
abbrev pub Can : State → Type 0
Can s = (t : State) × Step false s t

abbrev pub IsOver : State → Type 0
IsOver s = (s.server ≡ joining) × (s.one ≡ done) × (s.two ≡ done)

-- A client that has the mutex can go on.
holder : (m : Shared) (a : Client) → holds a ≡ 1 → (n : Shared) × (c : Client) × Move false m a n c
holder m Client.unlocking h = (_, _, Move.unlock)
holder m Client.locking h = absurd (omega (arith, h))
holder m done h = absurd (omega (arith, h))
holder m (sleeping r) h = absurd (omega (arith, h))
holder m (woken r) h = absurd (omega (arith, h))
holder m (testing r) h = elim (Bool-cases m.vorhanden) [
  | inl e ↦ (_, _, work r e)
  | inr e ↦ (_, _, sleep r e)
]

sleeping-cases : (a : Client) → ((r : ℕ) × (a ≡ sleeping r)) ⊎ (Sleeps a → ⊥)
sleeping-cases (sleeping r) = inl (r, refl)
sleeping-cases Client.unlocking = inr (λ h. h)
sleeping-cases Client.locking = inr (λ h. h)
sleeping-cases done = inr (λ h. h)
sleeping-cases (testing r) = inr (λ h. h)
sleeping-cases (woken r) = inr (λ h. h)

Sleeps-zero : (a : Client) → sleeps a ≡ 0 → Sleeps a → ⊥
Sleeps-zero (sleeping r) e h = omega (arith, e)
Sleeps-zero Client.unlocking e h = h
Sleeps-zero Client.locking e h = h
Sleeps-zero done e h = h
Sleeps-zero (testing r) e h = h
Sleeps-zero (woken r) e h = h

-- So can main.
server_holder : (m : Shared) (v : Server) (a b : Client) → server_holds v ≡ 1 → Can (state m v a b)
server_holder m (setting n) a b h = (_, main (set n))
server_holder m (Server.unlocking n) a b h = (_, main (Serve.unlock n))
server_holder m (Server.locking n) a b h = absurd (omega (arith, h))
server_holder m joining a b h = absurd (omega (arith, h))
server_holder m (signalling n) a b h = elim (sleeping-cases a) [
  | inl (r, e) ↦ rw e (_, signal_first n r)
  | inr f ↦ elim (sleeping-cases b) [
    | inl (r, e) ↦ rw e (_, signal_second n r)
    | inr g ↦ (_, signal_nobody n f g)
  ]
]

-- Where nobody has the mutex, a client that is neither at its end nor sleeps takes it.
taker :
    (m : Shared) (a : Client)
    → m.held ≡ false
    → holds a ≡ 0
    → sleeps a ≡ 0
    → (a ≡ done) ⊎ ((n : Shared) × (c : Client) × Move false m a n c)
taker m Client.locking f h s = inr (_, _, Move.lock f)
taker m Client.unlocking f h s = absurd (omega (arith, h))
taker m done f h s = inl refl
taker m (testing r) f h s = absurd (omega (arith, h))
taker m (sleeping r) f h s = absurd (omega (arith, s))
taker m (woken r) f h s = inr (_, _, relock r f)

server_taker :
    (m : Shared) (v : Server) (a b : Client)
    → m.held ≡ false
    → server_holds v ≡ 0
    → (v ≡ joining) ⊎ Can (state m v a b)
server_taker m (Server.locking n) a b f h = inr (_, main (Serve.lock n f))
server_taker m (setting n) a b f h = absurd (omega (arith, h))
server_taker m (signalling n) a b f h = absurd (omega (arith, h))
server_taker m (Server.unlocking n) a b f h = absurd (omega (arith, h))
server_taker m joining a b f h = inl refl

Inv-free :
    (m : Shared) (v : Server) (a b : Client)
    → Inv m v a b
    → m.held ≡ false
    → IsOver (state m v a b) ⊎ Can (state m v a b)
Inv-free m v a b i f =
    let none = i.mutex ∙ ap bit f in
    elim (server_taker m v a b f (omega (arith, none))) [
      | inr c ↦ inr c
      | inl e ↦
          let over : signals v ≡ 0 = ap signals e in
          let few = i.awake in
          elim (taker m a f (omega (arith, none)) (omega (arith, few, over))) [
            | inr (n, c, mv) ↦ inr (_, first mv)
            | inl d ↦ elim (taker m b f (omega (arith, none)) (omega (arith, few, over))) [
              | inr (n, c, mv) ↦ inr (_, second mv)
              | inl d' ↦ inl (e, d, d')
            ]
          ]
    ]

Inv-held :
    (m : Shared) (v : Server) (a b : Client) → Inv m v a b → m.held ≡ true → Can (state m v a b)
Inv-held m v a b i f =
    let one = i.mutex ∙ ap bit f in
    elim (Bool-cases (holds a == 1)) [
      | inl e ↦ let (n, c, mv) = holder m a ((==_iff (holds a) 1).0 e) in (_, first mv)
      | inr e ↦ elim (Bool-cases (holds b == 1)) [
        | inl e' ↦ let (n, c, mv) = holder m b ((==_iff (holds b) 1).0 e') in (_, second mv)
        | inr e' ↦ server_holder m v a b (ground (arith, one))
      ]
    ]

Inv-progress :
    (m : Shared) (v : Server) (a b : Client)
    → Inv m v a b
    → IsOver (state m v a b) ⊎ Can (state m v a b)
Inv-progress m v a b i = elim (Bool-cases m.held) [
  | inl e ↦ inr (Inv-held m v a b i e)
  | inr e ↦ Inv-free m v a b i e
]

-- In every interleaving, whether or not pthread_cond_wait returns without a signal: the program can go
-- on without such a return, or main has joined both clients, which are at their end; and while main
-- joins no client sleeps.
pub Reach-no_deadlock :
    (spurious : Bool) (s : State)
    → Reach spurious s
    → (((s.server ≡ joining) × (s.one ≡ done) × (s.two ≡ done)) ⊎ ((t : State) × Step false s t))
      × (s.server ≡ joining → (Sleeps s.one → ⊥) × (Sleeps s.two → ⊥))
Reach-no_deadlock spurious s r =
    let i = Reach-Inv r in
    (
      Inv-progress s.shared s.server s.one s.two i,
      λ e.
          let over : signals s.server ≡ 0 = ap signals e in
          let few = i.awake in
          (
            Sleeps-zero s.one (omega (arith, few, over)),
            Sleeps-zero s.two (omega (arith, few, over)),
          ),
    )
