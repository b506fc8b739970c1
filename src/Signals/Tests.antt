-- ===== src/Signals/Tests.antt =====
-- The first two steps of the two processes.
use linux_unix_development.Common.{◌≡◌, ◌⊎◌, refl, false, true, some, List, [], ◌∷◌, ◌++◌}
use linux_unix_development.Signals.{wait, Who, eltern, State, max, at, parent_step, child_step}
use linux_unix_development.Signals.Turns.{rounds}
use linux_unix_development.Signals.Order.{
  Reach, begin, parent, IsOver, Reach-prefix, Reach-progress,
}

-- The parent has printed and sent its signal.
abbrev sent : State
sent = record { parent = at wait 5 false false; child = at wait 5 false true; out = eltern ∷ [] }

sent-Reach : Reach sent
unfolding parent_step
sent-Reach = parent (parent begin refl) refl

Reach-prefix_example : (rest : List Who) × (sent.out ++ rest ≡ rounds max)
Reach-prefix_example = Reach-prefix sent sent-Reach

Reach-progress_example :
    IsOver sent ⊎ ((t : State) × ((parent_step sent ≡ some t) ⊎ (child_step sent ≡ some t)))
Reach-progress_example = Reach-progress sent sent-Reach
