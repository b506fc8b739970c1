-- ===== src/Shm.antt =====
-- 09_IPC/shm_server.c, 09_IPC/shm_client.c and 09_IPC/shm_header.h: clients write messages into a
-- segment of shared memory, the server prints them, and two semaphores take turns.
pub mod Steps
pub mod Exclusion
pub mod Undo
mod Tests
use linux_unix_development.Common.{ℕ, zero, suc, ◌+◌, ◌-◌, Option, none, some, List, [], ◌∷◌}

-- The numbers of the two semaphores of the set.
pub data Number : Type 0 where
  sn_empty sn_full : Number

-- The values of the set.
pub record Sems : Type 0 where
  pub empty : ℕ
  pub full : ℕ

abbrev pub decrement : ℕ → Option ℕ
decrement zero = none
decrement (suc n) = some n

-- locksem: `sem_op` is -1. `none` is a process that has to wait.
pub locksem : Number → Sems → Option Sems
locksem sn_empty s = with_empty (decrement s.empty)
  where
    with_empty : Option ℕ → Option Sems
    with_empty none = none
    with_empty (some n) = some (record s { empty = n })
locksem sn_full s = with_full (decrement s.full)
  where
    with_full : Option ℕ → Option Sems
    with_full none = none
    with_full (some n) = some (record s { full = n })

-- unlocksem: `sem_op` is 1.
pub unlocksem : Number → Sems → Sems
unlocksem sn_empty s = record s { empty = s.empty + 1 }
unlocksem sn_full s = record s { full = s.full + 1 }

-- Where a client stands: at its menu, before and behind the call of locksem in clientwrite.
pub data Phase : Type 0 where
  menu waiting writing ended : Phase

-- A client, with what SEM_UNDO notes of it: how often it locked SN_EMPTY and unlocked SN_FULL.
pub record Client : Type 0 where
  pub phase : Phase
  pub locks : ℕ
  pub unlocks : ℕ

-- The server waits for SN_FULL, or it is between the two calls.
pub data Serving : Type 0 where
  idle printing : Serving

pub record State : Type 0 where
  pub sems : Sems
  pub buffer : List ℕ
  pub server : Serving
  pub clients : List Client
  -- What the clients have written, and what the server has printed.
  pub sent : List (List ℕ)
  pub printed : List (List ℕ)

-- The start: server() sets SN_EMPTY to 1 and SN_FULL to 0.
pub start : List Client → State
start cs = record {
  sems = record { empty = 1; full = 0 };
  buffer = [];
  server = idle;
  clients = cs;
  sent = [];
  printed = [];
}

-- What the kernel does to the set when a process with SEM_UNDO ends: it takes back its operations,
-- and stops at 0.
pub undo : Client → Sems → Sems
undo c s = record { empty = s.empty + c.locks; full = s.full - c.unlocks }
