-- ===== src/Shm/Steps.antt =====
-- The steps of the processes: between two calls on the semaphores a process runs by itself.
use linux_unix_development.Common.{ℕ, ◌+◌, ◌≡◌, some, List, [], ◌∷◌, ◌++◌}
use linux_unix_development.Shm.{
  sn_empty, sn_full, Sems, locksem, unlocksem, menu, waiting, writing, ended, Client, idle,
  printing, State, undo,
}

-- A step that no end of a client is part of.
pub data Step : State → State → Type 0 where
  -- The menu's first entry: clientwrite is called.
  choose :
      {s : State} (xs ys : List Client) (c : Client)
      → s.clients ≡ xs ++ (c ∷ ys)
      → c.phase ≡ menu
      → Step s (record s { clients = xs ++ (record c { phase = waiting } ∷ ys) })
  -- locksem(semid, SN_EMPTY)
  enter :
      {s : State} (xs ys : List Client) (c : Client) (t : Sems)
      → s.clients ≡ xs ++ (c ∷ ys)
      → c.phase ≡ waiting
      → locksem sn_empty s.sems ≡ some t
      → Step s (record s {
        sems = t;
        clients = xs ++ (record c { phase = writing; locks = c.locks + 1 } ∷ ys);
      })
  -- fgets into the buffer, unlocksem(semid, SN_FULL), and back to the menu.
  write :
      {s : State} (xs ys : List Client) (c : Client) (x : List ℕ)
      → s.clients ≡ xs ++ (c ∷ ys)
      → c.phase ≡ writing
      → Step s (record s {
        sems = unlocksem sn_full s.sems;
        buffer = x;
        clients = xs ++ (record c { phase = menu; unlocks = c.unlocks + 1 } ∷ ys);
        sent = s.sent ++ (x ∷ []);
      })
  -- The server's locksem(semid, SN_FULL).
  receive :
      {s : State} (t : Sems)
      → s.server ≡ idle
      → locksem sn_full s.sems ≡ some t
      → Step s (record s { sems = t; server = printing })
  -- It prints the buffer and calls unlocksem(semid, SN_EMPTY).
  print :
      {s : State}
      → s.server ≡ printing
      → Step s (record s {
        sems = unlocksem sn_empty s.sems;
        server = idle;
        printed = s.printed ++ (s.buffer ∷ []);
      })

-- The menu's second entry: exit in the client, and what SEM_UNDO does then.
pub data End : State → State → Type 0 where
  leave :
      {s : State} (xs ys : List Client) (c : Client)
      → s.clients ≡ xs ++ (c ∷ ys)
      → c.phase ≡ menu
      → End s (record s {
        sems = undo c s.sems;
        clients = xs ++ (record { phase = ended; locks = 0; unlocks = 0 } ∷ ys);
      })

-- Any number of steps.
pub data Run (R : State → State → Type 0) : State → State → Type 0 where
  stop : {s : State} → Run R s s
  more : {s t u : State} → R s t → Run R t u → Run R s u
