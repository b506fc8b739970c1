-- ===== src/Signals/Turns.antt =====
-- At any time one process has the turn.
use linux_unix_development.Common.{
  ℕ, zero, suc, ◌+◌, ◌≡◌, true, false, Option, none, some, List, [], ◌∷◌, ◌++◌, append_assoc, arith,
}
use linux_unix_development.Signals.{
  print, signal, wait, done, Process, Who, eltern, kind, State, max, at, suspend, head_of,
  parent_step, child_step,
}

-- The lines of `k` rounds.
abbrev pub rounds : ℕ → List Who
rounds zero = []
rounds (suc k) = rounds k ++ (eltern ∷ kind ∷ [])

-- A state with its three parts.
abbrev pub turn : Process → Process → List Who → State
turn p c o = record { parent = p; child = c; out = o }

-- The states that can be reached: `k` rounds are over, and `n` are left behind the one that runs.
pub data Turn : State → Type 0 where
  parent_prints :
      (k n : ℕ)
      → k + suc n ≡ max
      → Turn (turn (at print (suc n) false false) (at wait (suc n) false false) (rounds k))
  parent_signals :
      (k n : ℕ)
      → k + suc n ≡ max
      → Turn (
          turn
            (at signal (suc n) false false)
            (at wait (suc n) false false)
            (rounds k ++ (eltern ∷ [])))
  child_pending :
      (k n : ℕ)
      → k + suc n ≡ max
      → Turn (
          turn
            (at wait (suc n) false false)
            (at wait (suc n) false true)
            (rounds k ++ (eltern ∷ [])))
  child_flag :
      (k n : ℕ)
      → k + suc n ≡ max
      → Turn (
          turn
            (at wait (suc n) false false)
            (at wait (suc n) true false)
            (rounds k ++ (eltern ∷ [])))
  child_prints :
      (k n : ℕ)
      → k + suc n ≡ max
      → Turn (
          turn
            (at wait (suc n) false false)
            (at print (suc n) false false)
            (rounds k ++ (eltern ∷ [])))
  child_signals :
      (k n : ℕ)
      → k + suc n ≡ max
      → Turn (turn (at wait (suc n) false false) (at signal (suc n) false false) (rounds (suc k)))
  parent_pending :
      (k n : ℕ)
      → k + suc n ≡ max
      → Turn
          (turn (at wait (suc n) false true) (at (head_of wait n) n false false) (rounds (suc k)))
  parent_flag :
      (k n : ℕ)
      → k + suc n ≡ max
      → Turn
          (turn (at wait (suc n) true false) (at (head_of wait n) n false false) (rounds (suc k)))
  over : Turn (turn (at done 0 false false) (at done 0 false false) (rounds max))

-- A process that steps, or waits.
abbrev pub Next : Option State → Type 0
Next none = Unit
Next (some t) = Turn t

-- Behind a round: another one, or the end.
after_round :
    (k n : ℕ)
    → k + suc n ≡ max
    → Turn (
        turn
          (at (head_of print n) n false false)
          (at (head_of wait n) n false false)
          (rounds (suc k)))
unfolding head_of
after_round k zero e = rw (let f : k ≡ 4 = omega (arith, e) in f) over
after_round k (suc n) e = parent_prints (suc k) n (omega (arith, e))

pub parent_step-Turn : (s : State) → Turn s → Next (parent_step s)
unfolding parent_step suspend
parent_step-Turn _ (parent_prints k n e) = parent_signals k n e
parent_step-Turn _ (parent_signals k n e) = child_pending k n e
parent_step-Turn _ (child_pending k n e) = tt
parent_step-Turn _ (child_flag k n e) = tt
parent_step-Turn _ (child_prints k n e) = tt
parent_step-Turn _ (child_signals k n e) = tt
parent_step-Turn _ (parent_pending k n e) = parent_flag k n e
parent_step-Turn _ (parent_flag k n e) = after_round k n e
parent_step-Turn _ over = tt

pub child_step-Turn : (s : State) → Turn s → Next (child_step s)
unfolding child_step suspend head_of
child_step-Turn _ (parent_prints k n e) = tt
child_step-Turn _ (parent_signals k n e) = tt
child_step-Turn _ (child_pending k n e) = child_flag k n e
child_step-Turn _ (child_flag k n e) = child_prints k n e
child_step-Turn _ (child_prints k n e) =
    rw (append_assoc (rounds k) (eltern ∷ []) (kind ∷ [])) (child_signals k n e)
child_step-Turn _ (child_signals k n e) = parent_pending k n e
child_step-Turn _ (parent_pending k zero e) = tt
child_step-Turn _ (parent_pending k (suc n) e) = tt
child_step-Turn _ (parent_flag k zero e) = tt
child_step-Turn _ (parent_flag k (suc n) e) = tt
child_step-Turn _ over = tt
