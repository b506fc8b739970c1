-- ===== src/Signals.antt =====
-- 08_Signals/sig_sync.c: a parent and its child take turns by signals. Both signals are blocked from
-- start_sync on, so that one that arrives stays pending until its receiver is in sigsuspend; the
-- handler sets the flag. The calls of sigprocmask block more signals and unblock none.
pub mod Turns
pub mod Order
mod Tests
use linux_unix_development.Common.{
  ℕ, zero, suc, Bool, true, false, Option, none, some, List, [], ◌∷◌, ◌++◌, if◌then◌else◌,
}

-- Where a process stands: before its line is printed, before kill, in the loop that waits, behind its
-- last round.
pub data Phase : Type 0 where
  print signal wait done : Phase

-- A process: the rounds that are left, `flag`, and whether the other's signal is pending.
pub record Process : Type 0 where
  pub phase : Phase
  pub left : ℕ
  pub flag : Bool
  pub pending : Bool

-- The lines on stdout.
pub data Who : Type 0 where
  eltern kind : Who

pub record State : Type 0 where
  pub parent : Process
  pub child : Process
  pub out : List Who

-- MAX
abbrev pub max : ℕ
max = 5

abbrev pub at : Phase → ℕ → Bool → Bool → Process
at p n f s = record { phase = p; left = n; flag = f; pending = s }

-- After fork.
abbrev pub start : State
start = record { parent = at print max false false; child = at wait max false false; out = [] }

-- sigsuspend: a signal that is pending is delivered, and the handler sets the flag. A process whose
-- flag is set leaves its loop and clears it: `next` is what follows. `none` waits.
pub suspend : (next : Process) → Process → Option Process
suspend next p =
    if p.flag then some next else if p.pending then some (at wait p.left true false) else none

-- The head of a for loop with `n` rounds left.
pub head_of : Phase → ℕ → Phase
head_of first zero = done
head_of first (suc n) = first

abbrev pub pred : ℕ → ℕ
pred zero = 0
pred (suc n) = n

-- A step of the parent: printing, eltern2kind, eltern_warten.
pub parent_step : State → Option State
parent_step s = step s.parent.phase
  where
    p : Process
    p = s.parent

    waited : Option Process → Option State
    waited none = none
    waited (some q) = some (record s { parent = q })

    step : Phase → Option State
    step print =
        some (record s { parent = record p { phase = signal }; out = s.out ++ (eltern ∷ []) })
    step signal =
        some (record s {
          parent = record p { phase = wait };
          child = record s.child { pending = true };
        })
    step wait = waited (suspend (at (head_of print (pred p.left)) (pred p.left) false p.pending) p)
    step done = none

-- A step of the child: kind_wartet, printing, kind2eltern.
pub child_step : State → Option State
child_step s = step s.child.phase
  where
    p : Process
    p = s.child

    waited : Option Process → Option State
    waited none = none
    waited (some q) = some (record s { child = q })

    step : Phase → Option State
    step wait = waited (suspend (at print p.left false p.pending) p)
    step print = some (record s { child = record p { phase = signal }; out = s.out ++ (kind ∷ []) })
    step signal = some (record s {
      child = record p { phase = head_of wait (pred p.left); left = pred p.left };
      parent = record s.parent { pending = true };
    })
    step done = none
