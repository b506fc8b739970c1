-- ===== src/Semaphore/Tests.antt =====
-- Two processes, the first of which is in its critical section.
use linux_unix_development.Common.{◌≤◌, refl, some, [], ◌∷◌}
use linux_unix_development.Semaphore.{
  begin, critical, State, miss, create, set_value, lock, Run, stop, more, start,
}
use linux_unix_development.Semaphore.Exclusive.{inside, Run-inside}

abbrev entered : State
entered = record { semaphore = some 0; processes = critical ∷ begin ∷ [] }

start-entered : Run (start 2) entered
start-entered = more (miss [] (begin ∷ []) refl refl) (
    more (create [] (begin ∷ []) refl refl)
      (more (set_value [] (begin ∷ []) refl) (more (lock [] (begin ∷ []) 0 refl refl) stop)))

Run-inside_example : inside entered.processes ≤ 1
Run-inside_example = Run-inside 2 entered start-entered
