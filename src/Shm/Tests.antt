-- ===== src/Shm/Tests.antt =====
-- Two clients of the shared memory, one of which has written a message.
use linux_unix_development.Common.{◌+◌, ◌≤◌, ◌≡◌, refl, List, [], ◌∷◌}
use linux_unix_development.Common.Bytes.{codes}
use linux_unix_development.Shm.{
  locksem, unlocksem, menu, waiting, writing, Client, idle, State, start,
}
use linux_unix_development.Shm.Steps.{Step, choose, enter, write, receive, print, Run, stop, more}
use linux_unix_development.Shm.Exclusion.{writers, busy, Run-exclusion, Run-messages}

abbrev at : Client
at = record { phase = menu; locks = 0; unlocks = 0 }

abbrev clients : List Client
clients = at ∷ at ∷ []

-- The second client goes in and waits for its input.
abbrev inside : State
inside = record {
  sems = record { empty = 0; full = 0 };
  buffer = [];
  server = idle;
  clients = at ∷ record { phase = writing; locks = 1; unlocks = 0 } ∷ [];
  sent = [];
  printed = [];
}

start-inside : Run Step (start clients) inside
unfolding start locksem
start-inside = more (choose (at ∷ []) [] at refl refl) (
    more
      (enter (at ∷ []) [] (record at { phase = waiting }) (record { empty = 0; full = 0 }) refl refl
        refl)
      stop)

Run-exclusion_example : writers inside.clients + busy inside.server ≤ 1
Run-exclusion_example = Run-exclusion clients inside (refl, (refl, tt)) start-inside

-- It has written, and the server has printed.
abbrev printed : State
printed = record {
  sems = record { empty = 1; full = 0 };
  buffer = codes "hi";
  server = idle;
  clients = at ∷ record { phase = menu; locks = 1; unlocks = 1 } ∷ [];
  sent = codes "hi" ∷ [];
  printed = codes "hi" ∷ [];
}

start-printed : Run Step (start clients) printed
unfolding start locksem unlocksem
start-printed = more (choose (at ∷ []) [] at refl refl) (
    more
      (enter (at ∷ []) [] (record at { phase = waiting }) (record { empty = 0; full = 0 }) refl refl
        refl)
      (more
        (write (at ∷ []) [] (record { phase = writing; locks = 1; unlocks = 0 }) (codes "hi") refl
          refl)
        (more (receive (record { empty = 0; full = 0 }) refl refl) (more (print refl) stop))))

Run-messages_example : printed.printed ≡ printed.sent
Run-messages_example = Run-messages clients printed (refl, (refl, tt)) start-printed refl refl

abbrev waiting_clients : State
waiting_clients = record {
  sems = record { empty = 1; full = 0 };
  buffer = codes "hi";
  server = idle;
  clients =
      record { phase = menu; locks = 1; unlocks = 1 }
      ∷ record { phase = waiting; locks = 0; unlocks = 0 }
      ∷ record { phase = waiting; locks = 0; unlocks = 0 }
      ∷ [];
  sent = codes "hi" ∷ [];
  printed = codes "hi" ∷ [];
}
