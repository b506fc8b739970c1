-- ===== src/Files/Trash.antt =====
-- 02_Files/trash.c: parent and child write to one file that was opened before fork.
pub mod Complete
use linux_unix_development.Common.{
  ℕ, zero, suc, ◌+◌, ◌≡◌, Option, none, some, List, [], ◌∷◌, ◌++◌, length,
}
use linux_unix_development.Files.Dup.{put_bytes}

-- A process in its loop: before a write to the file, or between it and the write to stdout, with the
-- number of rounds that follow. `at_file 0` is behind the loop.
pub data Loop : Type 0 where
  at_file at_out : (left : ℕ) → Loop

-- The parent in its loop and at wait, or after it printed the newline.
pub data Parent : Type 0 where
  looping : Loop → Parent
  printed : Parent

-- The processes, the file with the offset that they share, and stdout.
pub record State : Type 0 where
  pub parent : Parent
  pub child : Loop
  pub file : List ℕ
  pub offset : ℕ
  pub out : List ℕ

-- After fork; open has truncated the file.
abbrev pub start : State
start = record {
  parent = looping (at_file 10);
  child = at_file 10;
  file = [];
  offset = 0;
  out = [];
}

-- A write of a byte to the file, and to stdout.
abbrev pub write_file : ℕ → State → State
write_file c s = record s { file = put_bytes s.offset (c ∷ []) s.file; offset = s.offset + 1 }

abbrev pub write_out : ℕ → State → State
write_out c s = record s { out = s.out ++ (c ∷ []) }

-- The next write of a loop that writes the byte `c`.
unfoldable pub loop_step : ℕ → Loop → State → Option (Loop × State)
loop_step c (at_file zero) s = none
loop_step c (at_file (suc n)) s = some (at_out n, write_file c s)
loop_step c (at_out n) s = some (at_file n, write_out c s)

-- wait: the parent goes on when the child has ended.
pub wait : Loop → State → Option State
wait (at_file zero) s = some (record (write_out 10 s) { parent = printed })
wait (at_file (suc n)) s = none
wait (at_out n) s = none

-- A step of the parent and of the child; `none` waits or is at the end.
unfoldable pub parent_step : State → Option State
parent_step s = step s.parent
  where
    written : Option (Loop × State) → Option State
    written none = wait s.child s
    written (some (p, t)) = some (record t { parent = looping p })

    step : Parent → Option State
    step (looping p) = written (loop_step b'x' p s)
    step printed = none

pub child_step : State → Option State
child_step s = written (loop_step b'X' s.child s)
  where
    written : Option (Loop × State) → Option State
    written none = none
    written (some (p, t)) = some (record t { child = p })

-- The states that the processes reach in any interleaving.
pub data Reach : State → Type 0 where
  begin : Reach start
  parent : {s t : State} → Reach s → parent_step s ≡ some t → Reach t
  child : {s t : State} → Reach s → child_step s ≡ some t → Reach t
