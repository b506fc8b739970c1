-- ===== src/Select/Round.antt =====
-- A whole round keeps the invariant.
use linux_unix_development.Common.{
  ℕ, ◌-◌, ◌≡◌, ◌≢◌, inl, inr, Bool, true, false, some, leb, ◌==◌, ==_iff, Bool-cases, Option-cases,
  Guarded, Guarded-bind, arith,
}
use linux_unix_development.Select.{State, admit, Pass, serve, Events, clients, admitted, round}
use linux_unix_development.Select.Table.{member, Inv, admit-Inv}
use linux_unix_development.Select.PassOver.{PassOf, Apart, serve-PassOf}

-- The descriptors before a whole table: the listening socket.
abbrev listening : ℕ → ℕ → Bool
listening sock1 fd = fd == sock1

clients-Inv :
    (sock1 : ℕ) (e : Events) (ready : ℕ) (s : State)
    → Inv sock1 s
    → Guarded (Inv sock1) (clients e ready s)
unfolding clients
clients-Inv sock1 e ready s i =
    Guarded-bind (PassOf (listening sock1) s.client_sock) (Inv sock1)
      (serve e.lese_sock e.recv s.top ready s.client_sock s.gesamt_sock s.log) _
      (serve-PassOf e.lese_sock e.recv s.top ready s.client_sock s.gesamt_sock s.log
        (listening sock1) i.agrees apart i.distinct)
      λ q r. record {
        agrees = r.agrees;
        distinct = r.distinct;
        other = r.kept sock1 i.other;
        bounded = λ fd h. i.bounded fd (less q r fd h);
        above = r.above s.top i.above;
      }
  where
    apart : Apart (listening sock1) s.client_sock
    apart fd h = elim (Bool-cases (fd == sock1)) [
      | inl z ↦
          let eq : fd ≡ sock1 = (==_iff fd sock1).0 z in
          absurd (let h' : member sock1 s.client_sock ≡ true = rw eq at h in let o = i.other in cc)
      | inr z ↦ z
    ]

    less :
        (q : Pass)
        → PassOf (listening sock1) s.client_sock q
        → (fd : ℕ) → q.set fd ≡ true
        → s.gesamt_sock fd ≡ true
    less q r fd h = elim (Bool-cases (member fd s.client_sock)) [
      | inl z ↦ rw (i.agrees fd, z) (ground arith)
      | inr z ↦ rw (i.agrees fd, z) (let h' = rw (r.agrees fd, r.kept fd z) at h in h')
    ]

-- A round of the server keeps the invariant or ends the process: select goes on to wait for the
-- listening socket and for exactly the clients of the table. A descriptor that accept gives is new:
-- it is none of the clients and not the listening socket.
pub round-Inv :
    (sock1 : ℕ) (e : Events) (s : State)
    → Inv sock1 s
    → ((fd : ℕ) → e.accepted ≡ some fd → (member fd s.client_sock ≡ false) × (fd ≢ sock1))
    → Guarded (Inv sock1) (round sock1 e s)
unfolding round admitted admit
round-Inv sock1 e s i new = elim (Bool-cases (e.lese_sock sock1)) [
  | inr z ↦ rw z (clients-Inv sock1 e e.ready s i)
  | inl z ↦ rw z (elim (Option-cases e.accepted) [
    | inl none_left ↦ rw none_left tt
    | inr (fd, got) ↦ simp got (
        Guarded-bind (Inv sock1) (Inv sock1) (admit (some fd) s) (admitted e)
          (admit-Inv sock1 fd s i (new fd got).0 (new fd got).1)
          λ t j. elim (Bool-cases (leb e.ready 1)) [
            | inl l ↦ rw l j
            | inr l ↦ rw l (clients-Inv sock1 e (e.ready - 1) t j)
          ])
  ])
]
