-- ===== src/Shm/Exclusion.antt =====
-- While no client ends, one process at a time is at the buffer, and no message is lost.
use linux_unix_development.Common.{
  ℕ, zero, suc, ◌+◌, ◌≤◌, ◌≡◌, refl, sym, ap, ◌∙◌, some, List, [], ◌∷◌, ◌++◌, append-nil, arith,
}
use linux_unix_development.Shm.{
  Sems, sn_empty, sn_full, locksem, unlocksem, Phase, menu, waiting, writing, ended, Client,
  Serving, idle, printing, State, start,
}
use linux_unix_development.Shm.Steps.{Step, choose, enter, write, receive, print, Run, stop, more}

abbrev weight : Phase → ℕ
weight menu = 0
weight waiting = 0
weight writing = 1
weight ended = 0

-- How many clients are writing, and whether the server is printing.
abbrev pub writers : List Client → ℕ
writers [] = 0
writers (c ∷ cs) = weight c.phase + writers cs

abbrev pub busy : Serving → ℕ
busy idle = 0
busy printing = 1

writers-append :
    (xs ys : List Client) (c : Client)
    → writers (xs ++ (c ∷ ys)) ≡ writers xs + weight c.phase + writers ys
writers-append [] ys c = omega arith
writers-append (x ∷ xs) ys c = omega (arith, writers-append xs ys c)

-- A message that has been written and not printed.
abbrev pending : ℕ → List ℕ → List (List ℕ)
pending zero x = []
pending (suc n) x = x ∷ []

-- One process holds the only unit that the semaphores share out, and the messages that are sent are
-- those printed and the one that waits.
pub record Inv (s : State) : Type 0 where
  pub units : s.sems.empty + s.sems.full + writers s.clients + busy s.server ≡ 1
  pub messages : s.sent ≡ s.printed ++ pending (s.sems.full + busy s.server) s.buffer

abbrev pub AtMenu : List Client → Type 0
AtMenu [] = Unit
AtMenu (c ∷ cs) = (c.phase ≡ menu) × AtMenu cs

writers-AtMenu : (cs : List Client) → AtMenu cs → writers cs ≡ 0
writers-AtMenu [] h = refl
writers-AtMenu (c ∷ cs) h = omega (arith, ap weight h.0, writers-AtMenu cs h.1)

start-Inv : (cs : List Client) → AtMenu cs → Inv (start cs)
unfolding start
start-Inv cs h = record { units = omega (arith, writers-AtMenu cs h); messages = refl }

-- What a call of locksem that goes through does.
pub locksem-empty :
    (s t : Sems) → locksem sn_empty s ≡ some t → (s.empty ≡ t.empty + 1) × (s.full ≡ t.full)
unfolding locksem
locksem-empty s t e = at s.empty s.full e
  where
    at :
        (a b : ℕ)
        → locksem sn_empty (record { empty = a; full = b }) ≡ some t
        → (a ≡ t.empty + 1) × (b ≡ t.full)
    at zero b e = absurd (cc)
    at (suc a) b e =
        let h : record { empty = a; full = b } ≡ t = cc in
        (omega (arith, ap (λ r. r.empty) h), ap (λ r. r.full) h)

pub locksem-full :
    (s t : Sems) → locksem sn_full s ≡ some t → (s.full ≡ t.full + 1) × (s.empty ≡ t.empty)
unfolding locksem
locksem-full s t e = at s.empty s.full e
  where
    at :
        (a b : ℕ)
        → locksem sn_full (record { empty = a; full = b }) ≡ some t
        → (b ≡ t.full + 1) × (a ≡ t.empty)
    at a zero e = absurd (cc)
    at a (suc b) e =
        let h : record { empty = a; full = b } ≡ t = cc in
        (omega (arith, ap (λ r. r.full) h), ap (λ r. r.empty) h)

pending-none : (n : ℕ) (x : List ℕ) (p : List (List ℕ)) → n ≡ 0 → p ++ pending n x ≡ p
pending-none n x p e = ap (λ k. p ++ pending k x) e ∙ append-nil p

pending-one : (n : ℕ) (x : List ℕ) → n ≡ 1 → pending n x ≡ x ∷ []
pending-one n x e = ap (λ k. pending k x) e

-- The number of writers when a client goes from one phase to another.
replaced :
    (s : List Client) (xs ys : List Client) (c d : Client)
    → s ≡ xs ++ (c ∷ ys)
    → writers s + weight d.phase ≡ writers (xs ++ (d ∷ ys)) + weight c.phase
replaced s xs ys c d e = omega (arith, ap writers e, writers-append xs ys c, writers-append xs ys d)

Step-Inv : {s t : State} → Step s t → Inv s → Inv t
unfolding unlocksem
Step-Inv {s} (choose xs ys c e p) i =
    let n = replaced s.clients xs ys c (record c { phase = waiting }) e in
    record { units = omega (arith, i.units, n, ap weight p); messages = i.messages }
Step-Inv {s} (enter xs ys c u e p l) i =
    let n = replaced s.clients xs ys c (record c { phase = writing; locks = c.locks + 1 }) e in
    let (a, b) = locksem-empty s.sems u l in
    record {
      units = omega (arith, i.units, n, ap weight p, a, b);
      messages = i.messages ∙ ap (λ k. s.printed ++ pending k s.buffer) (omega (arith, b));
    }
Step-Inv {s} (write xs ys c x e p) i =
    let n = replaced s.clients xs ys c (record c { phase = menu; unlocks = c.unlocks + 1 }) e in
    let z : s.sems.full + busy s.server ≡ 0 = omega (arith, i.units, n, ap weight p) in
    record {
      units = omega (arith, i.units, n, ap weight p);
      messages =
          ap (λ l. l ++ (x ∷ [])) (i.messages ∙ pending-none _ s.buffer s.printed z)
          ∙ ap (λ l. s.printed ++ l)
              (sym (pending-one (s.sems.full + 1 + busy s.server) x (omega (arith, z))));
    }
Step-Inv {s} (receive u p l) i =
    let (b, a) = locksem-full s.sems u l in
    record {
      units = omega (arith, i.units, ap busy p, a, b);
      messages =
          i.messages ∙ ap (λ k. s.printed ++ pending k s.buffer) (omega (arith, ap busy p, b));
    }
Step-Inv {s} (print p) i =
    let one : s.sems.full + busy s.server ≡ 1 = omega (arith, i.units, ap busy p) in
    record {
      units = omega (arith, i.units, ap busy p);
      messages =
          i.messages
          ∙ ap (λ l. s.printed ++ l) (pending-one _ s.buffer one)
          ∙ sym (pending-none (s.sems.full + 0) s.buffer _ (omega (arith, one, ap busy p)));
    }

Run-Inv : {s t : State} → Run Step s t → Inv s → Inv t
Run-Inv stop i = i
Run-Inv (more e r) i = Run-Inv r (Step-Inv e i)

-- From the start, with every client at its menu, and as long as no client ends: at any time at most
-- one of the server and the clients is between its two calls on the semaphores.
pub Run-exclusion :
    (cs : List Client) (t : State)
    → AtMenu cs
    → Run Step (start cs) t
    → writers t.clients + busy t.server ≤ 1
Run-exclusion cs t h r = omega (arith, (Run-Inv r (start-Inv cs h)).units)

-- From the start, with every client at its menu, and as long as no client ends: when the server waits
-- and SN_FULL is 0, it has printed all messages that were written, in the order of writing.
pub Run-messages :
    (cs : List Client) (t : State)
    → AtMenu cs
    → Run Step (start cs) t
    → t.server ≡ idle
    → t.sems.full ≡ 0
    → t.printed ≡ t.sent
Run-messages cs t h r e f = sym (
    (Run-Inv r (start-Inv cs h)).messages
    ∙ pending-none _ t.buffer t.printed (omega (arith, f, ap busy e)))
