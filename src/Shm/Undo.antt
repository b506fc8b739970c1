-- ===== src/Shm/Undo.antt =====
-- What SEM_UNDO does when a client ends: the exclusion of Shm/Exclusion does not survive it.
use linux_unix_development.Common.{
  ℕ, suc, ◌+◌, ◌-◌, ◌≤◌, ◌≡◌, ◌⊎◌, refl, inl, inr, some, List, [], ◌∷◌, arith,
}
use linux_unix_development.Shm.{
  Sems, sn_empty, locksem, menu, waiting, writing, ended, Client, State, undo,
}
use linux_unix_development.Shm.Steps.{Step, enter, End, leave, Run, stop, more}
use linux_unix_development.Shm.Exclusion.{writers}

-- A step of either kind.
abbrev pub AnyStep : State → State → Type 0
AnyStep s t = Step s t ⊎ End s t

locksem-suc :
    (s : Sems) (n : ℕ)
    → s.empty ≡ suc n
    → locksem sn_empty s ≡ some (record { empty = n; full = s.full })
unfolding locksem
locksem-suc s n e = rw e

-- A client that has written a message and ends gives SN_EMPTY a unit that is not its own. If SN_EMPTY
-- is free, such a client is at its menu and two others wait, then it ends and both go on to write at
-- the same time.
pub leave-two_writers :
    (s : State) (c a b : Client) (cs : List Client)
    → s.clients ≡ c ∷ a ∷ b ∷ cs
    → c.phase ≡ menu
    → 1 ≤ c.locks
    → a.phase ≡ waiting
    → b.phase ≡ waiting
    → 1 ≤ s.sems.empty
    → (t : State) × Run AnyStep s t × (2 ≤ writers t.clients)
unfolding undo
leave-two_writers s c a b cs e p l q r f =
    let gone : Client = record { phase = ended; locks = 0; unlocks = 0 } in
    let a' : Client = record a { phase = writing; locks = a.locks + 1 } in
    let b' : Client = record b { phase = writing; locks = b.locks + 1 } in
    let n : ℕ = s.sems.empty + c.locks - 2 in
    let full : ℕ = s.sems.full - c.unlocks in
    let one : Sems = record { empty = suc n; full = full } in
    let two : Sems = record { empty = n; full = full } in
    (
      record s { sems = two; clients = gone ∷ a' ∷ b' ∷ cs },
      more (inr (leave [] (a ∷ b ∷ cs) c e p)) (
          more (inl (enter (gone ∷ []) (b ∷ cs) a one refl q (locksem-suc _ (suc n) (omega arith))))
            (more (inl (enter (gone ∷ a' ∷ []) cs b two refl r (locksem-suc one n refl))) stop)),
      omega arith,
    )
