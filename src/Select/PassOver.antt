-- ===== src/Select/PassOver.antt =====
-- The pass over the clients: the table and the set keep belonging together.
use linux_unix_development.Common.{
  ℕ, zero, suc, ◌-◌, ◌≡◌, inl, inr, Bool, true, false, ◌||◌, Option, none, some, List, [], ◌∷◌, leb,
  ◌==◌, if◌then◌else◌, ==_iff, Bool-cases, drop, Guarded, Guarded-bind, arith,
}
use linux_unix_development.Common.Bytes.{codes, str_eq}
use linux_unix_development.Select.{Event, received, closed, fd_clr, tcp_recv, Pass, serve}
use linux_unix_development.Select.Table.{member, Distinct, AllFree}

-- The pass over the rest `t` of the table, where the descriptors of `p` stand before it.
pub record PassOf (p : ℕ → Bool) (t : List (Option ℕ)) (q : Pass) : Type 0 where
  pub agrees : (fd : ℕ) → q.set fd ≡ (p fd || member fd q.table)
  pub kept : (fd : ℕ) → member fd t ≡ false → member fd q.table ≡ false
  pub distinct : Distinct q.table
  pub above : (k : ℕ) → AllFree (drop k t) → AllFree (drop k q.table)

-- The table starts with another entry.
abbrev push : Option ℕ → Pass → Pass
push x q = record { table = x ∷ q.table; set = q.set; log = q.log }

-- The set that belongs to the rest of the table.
abbrev pub AgreesOn : (ℕ → Bool) → (ℕ → Bool) → List (Option ℕ) → Type 0
AgreesOn set p t = (fd : ℕ) → set fd ≡ (p fd || member fd t)

abbrev pub Apart : (ℕ → Bool) → List (Option ℕ) → Type 0
Apart p t = (fd : ℕ) → member fd t ≡ true → p fd ≡ false

-- `p` with one more descriptor.
abbrev with_fd : ℕ → (ℕ → Bool) → ℕ → Bool
with_fd g p fd = p fd || fd == g

drop-free :
    (t u : List (Option ℕ))
    → ((k : ℕ) → AllFree (drop k t) → AllFree (drop k u))
    → (k : ℕ) → AllFree (drop k (none ∷ t))
    → AllFree (drop k (none ∷ u))
drop-free t u f zero h = f 0 h
drop-free t u f (suc k) h = f k h

drop-taken :
    (g : ℕ) (x : Option ℕ) (t u : List (Option ℕ))
    → ((k : ℕ) → AllFree (drop k t) → AllFree (drop k u))
    → (k : ℕ) → AllFree (drop k (some g ∷ t))
    → AllFree (drop k (x ∷ u))
drop-taken g x t u f zero h = absurd h
drop-taken g x t u f (suc k) h = f k h

free-PassOf :
    (p : ℕ → Bool) (t : List (Option ℕ)) (q : Pass)
    → PassOf p t q
    → PassOf p (none ∷ t) (push none q)
free-PassOf p t q r = record {
  agrees = r.agrees;
  kept = r.kept;
  distinct = r.distinct;
  above = drop-free t q.table r.above;
}

self-PassOf :
    (p : ℕ → Bool) (t : List (Option ℕ)) (set : ℕ → Bool) (log : List Event)
    → AgreesOn set p t
    → Distinct t
    → PassOf p t (record { table = t; set = set; log = log })
self-PassOf p t set log a d = record {
  agrees = a;
  kept = λ fd h. h;
  distinct = d;
  above = λ k h. h;
}

-- What becomes of the entry, of the set and of what stands before the rest, where a client quits or
-- stays.
abbrev pub entry : Bool → ℕ → Option ℕ
entry quit g = if quit then none else some g

abbrev pub set_after : Bool → ℕ → (ℕ → Bool) → ℕ → Bool
set_after quit g set = if quit then fd_clr g set else set

abbrev before : Bool → ℕ → (ℕ → Bool) → ℕ → Bool
before quit g p = if quit then p else with_fd g p

entry-PassOf :
    (quit : Bool) (g : ℕ) (p : ℕ → Bool) (t : List (Option ℕ)) (q : Pass)
    → member g t ≡ false
    → PassOf (before quit g p) t q
    → PassOf p (some g ∷ t) (push (entry quit g) q)
entry-PassOf true g p t q m r = record {
  agrees = r.agrees;
  kept = λ fd h. r.kept fd (ground (arith, h));
  distinct = r.distinct;
  above = drop-taken g none t q.table r.above;
}
entry-PassOf false g p t q m r = record {
  agrees = λ fd. rw (r.agrees fd) (ground arith);
  kept = λ fd h. rw (r.kept fd (ground (arith, h))) (ground (arith, h));
  distinct = (r.kept g m, r.distinct);
  above = drop-taken g (some g) t q.table r.above;
}

after-AgreesOn :
    (quit : Bool) (g : ℕ) (p set : ℕ → Bool) (t : List (Option ℕ))
    → AgreesOn set p (some g ∷ t)
    → Apart p (some g ∷ t)
    → member g t ≡ false
    → AgreesOn (set_after quit g set) (before quit g p) t
after-AgreesOn true g p set t a d m = λ fd. elim (Bool-cases (fd == g)) [
  | inl e ↦
      let eq : fd ≡ g = (==_iff fd g).0 e in
      let z : (g == g) ≡ true = ground arith in
      let out : p g ≡ false = d g (rw z) in rw (eq, z, out, m)
  | inr e ↦ rw (e, a fd) (ground (arith, e))
]
after-AgreesOn false g p set t a d m = λ fd. rw (a fd) (ground arith)

after-Apart :
    (quit : Bool) (g : ℕ) (p : ℕ → Bool) (t : List (Option ℕ))
    → Apart p (some g ∷ t)
    → member g t ≡ false
    → Apart (before quit g p) t
after-Apart true g p t d m = λ fd h. d fd (ground (arith, h))
after-Apart false g p t d m = λ fd h. elim (Bool-cases (fd == g)) [
  | inl e ↦
      let eq : fd ≡ g = (==_iff fd g).0 e in absurd (let h' : member g t ≡ true = rw eq at h in cc)
  | inr e ↦ rw (d fd (ground (arith, h)), e)
]

abbrev pub log_after : Bool → ℕ → List ℕ → List Event → List Event
log_after quit g x log = if quit then closed g ∷ received g x ∷ log else received g x ∷ log

tcp_recv-Guarded : (o : Option (List ℕ)) → Guarded (λ x. Unit {0}) (tcp_recv o)
unfolding tcp_recv
tcp_recv-Guarded none = tt
tcp_recv-Guarded (some x) = tt

pub serve-PassOf :
    (lese : ℕ → Bool) (recv : ℕ → Option (List ℕ)) (n ready : ℕ) (t : List (Option ℕ))
    (set : ℕ → Bool) (log : List Event) (p : ℕ → Bool)
    → AgreesOn set p t
    → Apart p t
    → Distinct t
    → Guarded (PassOf p t) (serve lese recv n ready t set log)
unfolding serve
serve-PassOf lese recv zero ready t set log p a d i = self-PassOf p t set log a i
serve-PassOf lese recv (suc n) ready [] set log p a d i = self-PassOf p [] set log a i
serve-PassOf lese recv (suc n) ready (none ∷ t) set log p a d i =
    Guarded-bind (PassOf p t) (PassOf p (none ∷ t)) (serve lese recv n ready t set log) _
      (serve-PassOf lese recv n ready t set log p a d i) λ q r. free-PassOf p t q r
serve-PassOf lese recv (suc n) ready (some g ∷ t) set log p a d i = elim (Bool-cases (lese g)) [
  | inr e ↦ rw e (
      Guarded-bind (PassOf (with_fd g p) t) (PassOf p (some g ∷ t))
        (serve lese recv n ready t set log) _
        (serve-PassOf lese recv n ready t set log (with_fd g p)
          (after-AgreesOn false g p set t a d i.0) (after-Apart false g p t d i.0) i.1)
        λ q r. entry-PassOf false g p t q i.0 r)
  | inl e ↦ rw e (
      Guarded-bind (λ x. Unit) (PassOf p (some g ∷ t)) (tcp_recv (recv g)) _
        (tcp_recv-Guarded (recv g))
        λ x _.
          let quit = str_eq x (codes "quit\n") in
          let a' = after-AgreesOn quit g p set t a d i.0 in
          elim (Bool-cases (leb ready 1)) [
            | inl l ↦ rw l (
                entry-PassOf quit g p t _ i.0 (
                  self-PassOf (before quit g p) t (set_after quit g set) (log_after quit g x log) a'
                    i.1))
            | inr l ↦ rw l (
                Guarded-bind (PassOf (before quit g p) t) (PassOf p (some g ∷ t))
                  (serve lese recv n (ready - 1) t (set_after quit g set) (log_after quit g x log))
                  _
                  (serve-PassOf lese recv n (ready - 1) t (set_after quit g set)
                    (log_after quit g x log) (before quit g p) a' (after-Apart quit g p t d i.0)
                    i.1)
                  λ q r. entry-PassOf quit g p t q i.0 r)
          ])
]
