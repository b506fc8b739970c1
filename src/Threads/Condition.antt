-- ===== src/Threads/Condition.antt =====
-- 10_Threads/thread12.c: two clients wait on a condition variable for data that the main thread reports
-- four times.
pub mod Wakes
pub mod Progress
use linux_unix_development.Common.{
  ℕ, zero, suc, ◌+◌, ◌≡◌, ◌≢◌, Bool, true, false, ◌==◌, if◌then◌else◌,
}

-- The mutex, datenVorhanden and geteilteDaten.
pub record Shared : Type 0 where
  pub held : Bool
  pub vorhanden : Bool
  pub geteilt : ℕ

-- theThread: at its lock, at the test of the inner loop, in pthread_cond_wait, in it and signalled, at
-- its unlock, at its end; with `retries`.
pub data Client : Type 0 where
  locking unlocking done : Client
  testing sleeping woken : (retries : ℕ) → Client

-- while (--retries)
abbrev pub head_of : ℕ → Client
head_of zero = unlocking
head_of (suc zero) = unlocking
head_of (suc (suc r)) = testing (suc r)

-- main: at its lock, at the assignments, at pthread_cond_signal, at its unlock, at pthread_join; `n` is
-- anzahlDaten.
pub data Server : Type 0 where
  locking setting signalling unlocking : (n : ℕ) → Server
  joining : Server

-- while (anzahlDaten--)
abbrev pub server_head : ℕ → Server
server_head zero = joining
server_head (suc n) = Server.locking n

pub record State : Type 0 where
  pub shared : Shared
  pub server : Server
  pub one : Client
  pub two : Client

abbrev pub state : Shared → Server → Client → Client → State
state m v a b = record { shared = m; server = v; one = a; two = b }

abbrev pub start : State
start =
    state (record { held = false; vorhanden = false; geteilt = 0 }) (server_head 4) Client.locking
      Client.locking

-- A step of a client. `spurious` says whether pthread_cond_wait may return without a signal.
pub data Move (spurious : Bool) (m : Shared) : Client → Shared → Client → Type 0 where
  lock : m.held ≡ false → Move spurious m Client.locking (record m { held = true }) (head_of 2)
  sleep :
      (r : ℕ)
      → m.vorhanden ≡ false
      → Move spurious m (testing r) (record m { held = false }) (sleeping r)
  wake : (r : ℕ) → spurious ≡ true → Move spurious m (sleeping r) m (woken r)
  relock :
      (r : ℕ) → m.held ≡ false → Move spurious m (woken r) (record m { held = true }) (testing r)
  work :
      (r : ℕ)
      → m.vorhanden ≡ true
      → Move spurious m
          (testing r)
          (record m { vorhanden = if m.geteilt == 0 then false else true })
          (head_of r)
  unlock : Move spurious m Client.unlocking (record m { held = false }) done

-- A step of main, but for the signal.
pub data Serve (m : Shared) : Server → Shared → Server → Type 0 where
  lock :
      (n : ℕ) → m.held ≡ false → Serve m (Server.locking n) (record m { held = true }) (setting n)
  set :
      (n : ℕ)
      → Serve m (setting n) (record m { geteilt = m.geteilt + 1; vorhanden = true }) (signalling n)
  unlock : (n : ℕ) → Serve m (Server.unlocking n) (record m { held = false }) (server_head n)

abbrev pub Sleeps : Client → Type 0
Sleeps (sleeping r) = Unit
Sleeps Client.locking = ⊥
Sleeps Client.unlocking = ⊥
Sleeps done = ⊥
Sleeps (testing r) = ⊥
Sleeps (woken r) = ⊥

-- A step of the program. A signal wakes one of the clients that sleep, if there is one.
pub data Step (spurious : Bool) : State → State → Type 0 where
  first :
      {m n : Shared} {v : Server} {a b c : Client}
      → Move spurious m a n c
      → Step spurious (state m v a b) (state n v c b)
  second :
      {m n : Shared} {v : Server} {a b c : Client}
      → Move spurious m b n c
      → Step spurious (state m v a b) (state n v a c)
  main :
      {m n : Shared} {v w : Server} {a b : Client}
      → Serve m v n w
      → Step spurious (state m v a b) (state n w a b)
  signal_first :
      {m : Shared} {b : Client} (n r : ℕ)
      → Step spurious
          (state m (signalling n) (sleeping r) b)
          (state m (Server.unlocking n) (woken r) b)
  signal_second :
      {m : Shared} {a : Client} (n r : ℕ)
      → Step spurious
          (state m (signalling n) a (sleeping r))
          (state m (Server.unlocking n) a (woken r))
  signal_nobody :
      {m : Shared} {a b : Client} (n : ℕ)
      → (Sleeps a → ⊥)
      → (Sleeps b → ⊥)
      → Step spurious (state m (signalling n) a b) (state m (Server.unlocking n) a b)

-- The states that are reached in any interleaving.
pub data Reach (spurious : Bool) : State → Type 0 where
  begin : Reach spurious start
  next : {s t : State} → Reach spurious s → Step spurious s t → Reach spurious t
