-- ===== src/Threads/Condition/Wakes.antt =====
-- What holds in every state of thread12.c: who has the mutex, and that signals are left for all clients
-- that sleep.
use linux_unix_development.Common.{
  ℕ, zero, suc, ◌+◌, ◌≤◌, ◌<◌, ◌≡◌, refl, ap, ◌∙◌, Bool, true, false, ◌==◌, arith,
}
use linux_unix_development.Threads.Condition.{
  Shared, Client, done, testing, sleeping, woken, head_of, Server, setting, signalling, joining,
  server_head, State, Move, sleep, wake, relock, work, Serve, set, Sleeps, Step, first, second,
  main, signal_first, signal_second, signal_nobody, Reach, begin, next,
}

-- Who has the mutex.
abbrev pub holds : Client → ℕ
holds (testing r) = 1
holds Client.unlocking = 1
holds Client.locking = 0
holds done = 0
holds (sleeping r) = 0
holds (woken r) = 0

abbrev pub server_holds : Server → ℕ
server_holds (setting n) = 1
server_holds (signalling n) = 1
server_holds (Server.unlocking n) = 1
server_holds (Server.locking n) = 0
server_holds joining = 0

abbrev pub bit : Bool → ℕ
bit true = 1
bit false = 0

abbrev pub sleeps : Client → ℕ
sleeps (sleeping r) = 1
sleeps Client.unlocking = 0
sleeps Client.locking = 0
sleeps done = 0
sleeps (testing r) = 0
sleeps (woken r) = 0

-- The signals that are still to come.
abbrev pub signals : Server → ℕ
signals (Server.locking n) = suc n
signals (setting n) = suc n
signals (signalling n) = suc n
signals (Server.unlocking n) = n
signals joining = 0

-- The data have been reported where the signal is next.
abbrev pub Told : Server → Bool → Type 0
Told (signalling n) b = b ≡ true
Told (Server.locking n) b = Unit
Told (setting n) b = Unit
Told (Server.unlocking n) b = Unit
Told joining b = Unit

pub record Inv (m : Shared) (v : Server) (a b : Client) : Type 0 where
  pub mutex : holds a + holds b + server_holds v ≡ bit m.held
  pub quiet : m.vorhanden ≡ false → signals v ≡ 4
  pub filled : m.vorhanden ≡ true → 0 < m.geteilt
  pub awake : sleeps a + sleeps b ≤ signals v
  pub told : Told v m.vorhanden

Inv-swap : {m : Shared} {v : Server} {a b : Client} → Inv m v a b → Inv m v b a
Inv-swap i = record {
  mutex = omega (arith, i.mutex);
  quiet = i.quiet;
  filled = i.filled;
  awake = omega (arith, i.awake);
  told = i.told;
}

sleeps-le : (a : Client) → sleeps a ≤ 1
sleeps-le (sleeping r) = omega arith
sleeps-le Client.unlocking = omega arith
sleeps-le Client.locking = omega arith
sleeps-le done = omega arith
sleeps-le (testing r) = omega arith
sleeps-le (woken r) = omega arith

bit-le : (b : Bool) → bit b ≤ 1
bit-le true = omega arith
bit-le false = omega arith

holds-head : (r : ℕ) → holds (head_of r) ≡ 1
holds-head zero = refl
holds-head (suc zero) = refl
holds-head (suc (suc r)) = refl

sleeps-head : (r : ℕ) → sleeps (head_of r) ≡ 0
sleeps-head zero = refl
sleeps-head (suc zero) = refl
sleeps-head (suc (suc r)) = refl

server_head-lem : (n : ℕ) → (signals (server_head n) ≡ n) × (server_holds (server_head n) ≡ 0)
server_head-lem zero = (refl, refl)
server_head-lem (suc n) = (refl, refl)

Told-true : (v : Server) → Told v true
Told-true (Server.locking n) = tt
Told-true (setting n) = tt
Told-true (signalling n) = refl
Told-true (Server.unlocking n) = tt
Told-true joining = tt

Told-head : (n : ℕ) (b : Bool) → Told (server_head n) b
Told-head zero b = tt
Told-head (suc n) b = tt

Move-Inv :
    {sp : Bool} {m n : Shared} {v : Server} {a b c : Client}
    → Move sp m a n c
    → Inv m v a b
    → Inv n v c b
Move-Inv (Move.lock f) i = record {
  mutex = omega (arith, i.mutex, ap bit f);
  quiet = i.quiet;
  filled = i.filled;
  awake = i.awake;
  told = i.told;
}
Move-Inv {m} {b} (sleep r f) i = record {
  mutex = omega (arith, i.mutex, bit-le m.held);
  quiet = i.quiet;
  filled = i.filled;
  awake = omega (arith, i.quiet f, sleeps-le b);
  told = i.told;
}
Move-Inv (wake r p) i = record {
  mutex = i.mutex;
  quiet = i.quiet;
  filled = i.filled;
  awake = omega (arith, i.awake);
  told = i.told;
}
Move-Inv (relock r f) i = record {
  mutex = omega (arith, i.mutex, ap bit f);
  quiet = i.quiet;
  filled = i.filled;
  awake = i.awake;
  told = i.told;
}
Move-Inv {m} {v} (work r f) i =
    let full = i.filled f in
    let same : (m.geteilt == 0) ≡ false = ground (arith, full) in
    rw same (record {
      mutex = omega (arith, i.mutex, holds-head r);
      quiet = λ e. absurd (cc);
      filled = λ e. full;
      awake = omega (arith, i.awake, sleeps-head r);
      told = Told-true v;
    })
Move-Inv {m} Move.unlock i = record {
  mutex = omega (arith, i.mutex, bit-le m.held);
  quiet = i.quiet;
  filled = i.filled;
  awake = i.awake;
  told = i.told;
}

Serve-Inv : {m n : Shared} {v w : Server} {a b : Client} → Serve m v n w → Inv m v a b → Inv n w a b
Serve-Inv (Serve.lock k f) i = record {
  mutex = omega (arith, i.mutex, ap bit f);
  quiet = i.quiet;
  filled = i.filled;
  awake = i.awake;
  told = tt;
}
Serve-Inv (set k) i = record {
  mutex = i.mutex;
  quiet = λ e. absurd (cc);
  filled = λ e. omega arith;
  awake = i.awake;
  told = refl;
}
Serve-Inv {m} (Serve.unlock k) i =
    let (left, free) = server_head-lem k in
    record {
      mutex = omega (arith, i.mutex, free, bit-le m.held);
      quiet = λ e. left ∙ i.quiet e;
      filled = i.filled;
      awake = omega (arith, i.awake, left);
      told = Told-head k m.vorhanden;
    }

-- After a signal one client less sleeps, or none does.
signal-Inv :
    {m : Shared} {a b c d : Client} (n : ℕ)
    → Inv m (signalling n) a b
    → holds c + holds d ≡ holds a + holds b
    → sleeps c + sleeps d ≤ n
    → Inv m (Server.unlocking n) c d
signal-Inv n i h s = record {
  mutex = omega (arith, i.mutex, h);
  quiet = λ e. absurd (let t = i.told in cc);
  filled = i.filled;
  awake = s;
  told = tt;
}

not-Sleeps : (a : Client) → (Sleeps a → ⊥) → sleeps a ≡ 0
not-Sleeps (sleeping r) h = absurd (h tt)
not-Sleeps Client.unlocking h = refl
not-Sleeps Client.locking h = refl
not-Sleeps done h = refl
not-Sleeps (testing r) h = refl
not-Sleeps (woken r) h = refl

abbrev pub InvOf : State → Type 0
InvOf s = Inv s.shared s.server s.one s.two

Step-Inv : {sp : Bool} {s t : State} → Step sp s t → InvOf s → InvOf t
Step-Inv (first mv) i = Move-Inv mv i
Step-Inv (second mv) i = Inv-swap (Move-Inv mv (Inv-swap i))
Step-Inv (main sv) i = Serve-Inv sv i
Step-Inv (signal_first {b} n r) i = signal-Inv n i refl (omega (arith, i.awake))
Step-Inv (signal_second {a} n r) i = signal-Inv n i refl (omega (arith, i.awake))
Step-Inv (signal_nobody {a} {b} n h k) i =
    signal-Inv n i refl (omega (arith, not-Sleeps a h, not-Sleeps b k))

pub Reach-Inv : {sp : Bool} {s : State} → Reach sp s → InvOf s
Reach-Inv begin = record {
  mutex = refl;
  quiet = λ e. refl;
  filled = λ e. absurd (cc);
  awake = omega arith;
  told = tt;
}
Reach-Inv (next r st) = Step-Inv st (Reach-Inv r)
