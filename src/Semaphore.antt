-- ===== src/Semaphore.antt =====
-- 09_IPC/sem.c: processes that run the program create or find one semaphore and enter a critical
-- section in turn. A call that would wait is no step. A new semaphore has the value 0, as on Linux.
pub mod Exclusive
mod Tests
use linux_unix_development.Common.{ℕ, zero, suc, ◌+◌, ◌≡◌, Option, none, some, List, [], ◌∷◌, ◌++◌}

-- Where a process stands: at the start, behind a semget that found nothing, behind the semget that
-- created the semaphore, before LOCK, in the critical section, at its end.
pub data Phase : Type 0 where
  begin absent created ready critical ended : Phase

-- The semaphore, if it exists, and the processes.
pub record State : Type 0 where
  pub semaphore : Option ℕ
  pub processes : List Phase

-- A process goes from one phase to another.
abbrev pub moved : Phase → List Phase → List Phase → List Phase
moved p xs ys = xs ++ (p ∷ ys)

pub data Step : State → State → Type 0 where
  -- init_semaphore finds the semaphore.
  find :
      {s : State} (xs ys : List Phase) (v : ℕ)
      → s.processes ≡ moved begin xs ys
      → s.semaphore ≡ some v
      → Step s (record s { processes = moved ready xs ys })
  -- It does not.
  miss :
      {s : State} (xs ys : List Phase)
      → s.processes ≡ moved begin xs ys
      → s.semaphore ≡ none
      → Step s (record s { processes = moved absent xs ys })
  -- It creates the semaphore.
  create :
      {s : State} (xs ys : List Phase)
      → s.processes ≡ moved absent xs ys
      → s.semaphore ≡ none
      → Step s (record { semaphore = some 0; processes = moved created xs ys })
  -- Another process was faster: IPC_EXCL makes semget fail, and main ends.
  late :
      {s : State} (xs ys : List Phase) (v : ℕ)
      → s.processes ≡ moved absent xs ys
      → s.semaphore ≡ some v
      → Step s (record s { processes = moved ended xs ys })
  -- semctl(semid, 0, SETVAL, 1)
  set_value :
      {s : State} (xs ys : List Phase)
      → s.processes ≡ moved created xs ys
      → Step s (record { semaphore = some 1; processes = moved ready xs ys })
  -- semaphore_operation(LOCK)
  lock :
      {s : State} (xs ys : List Phase) (v : ℕ)
      → s.processes ≡ moved ready xs ys
      → s.semaphore ≡ some (suc v)
      → Step s (record { semaphore = some v; processes = moved critical xs ys })
  -- semaphore_operation(UNLOCK), or the end of a process in its critical section: SEM_UNDO gives
  -- the unit back.
  unlock :
      {s : State} (xs ys : List Phase) (v : ℕ)
      → s.processes ≡ moved critical xs ys
      → s.semaphore ≡ some v
      → Step s (record { semaphore = some (v + 1); processes = moved ended xs ys })

pub data Run : State → State → Type 0 where
  stop : {s : State} → Run s s
  more : {s t u : State} → Step s t → Run t u → Run s u

-- Processes that start without a semaphore.
abbrev pub begins : ℕ → List Phase
begins zero = []
begins (suc n) = begin ∷ begins n

abbrev pub start : ℕ → State
start n = record { semaphore = none; processes = begins n }
