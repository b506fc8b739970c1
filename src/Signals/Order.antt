-- ===== src/Signals/Order.antt =====
-- The lines alternate, and the processes do not wait for each other forever.
use linux_unix_development.Common.{
  ℕ, zero, suc, ◌+◌, ◌≡◌, refl, ap, ◌∙◌, sym, ◌⊎◌, inl, inr, some, List, [], ◌∷◌, ◌++◌, append-nil,
  append_assoc, arith,
}
use linux_unix_development.Signals.{
  done, Who, eltern, kind, State, max, start, suspend, parent_step, child_step,
}
use linux_unix_development.Signals.Turns.{
  rounds, Turn, parent_prints, parent_signals, child_pending, child_flag, child_prints,
  child_signals, parent_pending, parent_flag, over, parent_step-Turn, child_step-Turn,
}

-- The states that the two processes reach in any interleaving.
pub data Reach : State → Type 0 where
  begin : Reach start
  parent : {s t : State} → Reach s → parent_step s ≡ some t → Reach t
  child : {s t : State} → Reach s → child_step s ≡ some t → Reach t

Reach-Turn : {s : State} → Reach s → Turn s
Reach-Turn begin = parent_prints 0 4 refl
Reach-Turn (parent {s} r e) = let n = parent_step-Turn s (Reach-Turn r) in rw e at n
Reach-Turn (child {s} r e) = let n = child_step-Turn s (Reach-Turn r) in rw e at n

rounds-prefix : (k n m : ℕ) → k + n ≡ m → (rest : List Who) × (rounds k ++ rest ≡ rounds m)
rounds-prefix k zero m e =
    ([], append-nil (rounds k) ∙ ap rounds {x = k} {y = m} (omega (arith, e)))
rounds-prefix k (suc n) m e =
    let (rest, f) = rounds-prefix (suc k) n m (omega (arith, e)) in
    ((eltern ∷ kind ∷ []) ++ rest, sym (append_assoc (rounds k) (eltern ∷ kind ∷ []) rest) ∙ f)

-- A line of the parent alone.
half-prefix :
    (k n m : ℕ)
    → k + suc n ≡ m
    → (rest : List Who) × ((rounds k ++ (eltern ∷ [])) ++ rest ≡ rounds m)
half-prefix k n m e =
    let (rest, f) = rounds-prefix (suc k) n m (omega (arith, e)) in
    (
      kind ∷ rest,
      append_assoc (rounds k) (eltern ∷ []) (kind ∷ rest)
          ∙ sym (append_assoc (rounds k) (eltern ∷ kind ∷ []) rest)
          ∙ f,
    )

Turn-prefix : {s : State} → Turn s → (rest : List Who) × (s.out ++ rest ≡ rounds max)
Turn-prefix (parent_prints k n e) = rounds-prefix k (suc n) max e
Turn-prefix (parent_signals k n e) = half-prefix k n max e
Turn-prefix (child_pending k n e) = half-prefix k n max e
Turn-prefix (child_flag k n e) = half-prefix k n max e
Turn-prefix (child_prints k n e) = half-prefix k n max e
Turn-prefix (child_signals k n e) = rounds-prefix (suc k) n max (omega (arith, e))
Turn-prefix (parent_pending k n e) = rounds-prefix (suc k) n max (omega (arith, e))
Turn-prefix (parent_flag k n e) = rounds-prefix (suc k) n max (omega (arith, e))
Turn-prefix over = ([], append-nil (rounds max))

-- In every interleaving the output is at any time the beginning of MAX rounds, in each of which the
-- parent prints its line and then the child.
pub Reach-prefix : (s : State) → Reach s → (rest : List Who) × (s.out ++ rest ≡ rounds max)
Reach-prefix s r = Turn-prefix (Reach-Turn r)

-- Both processes are at their end.
abbrev pub IsOver : State → Type 0
IsOver s = (s.parent.phase ≡ done) × (s.child.phase ≡ done) × (s.out ≡ rounds max)

Turn-progress :
    {s : State}
    → Turn s
    → IsOver s ⊎ ((t : State) × ((parent_step s ≡ some t) ⊎ (child_step s ≡ some t)))
unfolding parent_step child_step suspend
Turn-progress (parent_prints k n e) = inr (_, inl refl)
Turn-progress (parent_signals k n e) = inr (_, inl refl)
Turn-progress (child_pending k n e) = inr (_, inr refl)
Turn-progress (child_flag k n e) = inr (_, inr refl)
Turn-progress (child_prints k n e) = inr (_, inr refl)
Turn-progress (child_signals k n e) = inr (_, inr refl)
Turn-progress (parent_pending k n e) = inr (_, inl refl)
Turn-progress (parent_flag k n e) = inr (_, inl refl)
Turn-progress over = inl (refl, refl, refl)

-- In every interleaving there is no deadlock: a process can go on, or both are at their end and all
-- rounds have been printed.
pub Reach-progress :
    (s : State)
    → Reach s
    → IsOver s ⊎ ((t : State) × ((parent_step s ≡ some t) ⊎ (child_step s ≡ some t)))
Reach-progress s r = Turn-progress (Reach-Turn r)
