-- ===== src/Select/Table.antt =====
-- The table of clients and the set of descriptors that select waits for.
use linux_unix_development.Common.{
  ℕ, zero, suc, ◌⊎◌, ◌≤◌, ◌≡◌, ◌≢◌, refl, ap, inl, inr, Bool, true, false, ◌||◌, Option, none, some,
  List, [], ◌∷◌, ltb, leb, ◌==◌, if◌then◌else◌, Bool-cases, length, drop, Guarded, arith,
}
use linux_unix_development.Select.{State, fd_set, place, admit}

-- Whether a client with the descriptor is in the table.
abbrev pub member : ℕ → List (Option ℕ) → Bool
member fd [] = false
member fd (none ∷ t) = member fd t
member fd (some g ∷ t) = fd == g || member fd t

-- No descriptor is in the table twice.
abbrev pub Distinct : List (Option ℕ) → Type 0
Distinct [] = Unit
Distinct (none ∷ t) = Distinct t
Distinct (some g ∷ t) = (member g t ≡ false) × Distinct t

abbrev pub AllFree : List (Option ℕ) → Type 0
AllFree [] = Unit
AllFree (none ∷ t) = AllFree t
AllFree (some g ∷ t) = ⊥

-- select waits for the listening socket and for exactly the clients of the table; the table has no
-- client twice, and none at or behind `top`; and `sock_max` is no less than any descriptor.
pub record Inv (sock1 : ℕ) (s : State) : Type 0 where
  pub agrees : (fd : ℕ) → s.gesamt_sock fd ≡ (fd == sock1 || member fd s.client_sock)
  pub distinct : Distinct s.client_sock
  pub other : member sock1 s.client_sock ≡ false
  pub bounded : (fd : ℕ) → s.gesamt_sock fd ≡ true → fd ≤ s.sock_max
  pub above : AllFree (drop s.top s.client_sock)

-- A descriptor put in the table.
pub record Placed (fd : ℕ) (t t' : List (Option ℕ)) (i : ℕ) : Type 0 where
  pub members : (q : ℕ) → member q t' ≡ (q == fd || member q t)
  pub distinct : Distinct t → Distinct t'
  pub above : (k : ℕ) → AllFree (drop k t) → AllFree (drop (if leb k i then suc i else k) t')
  pub same : length t' ≡ length t

place-Placed :
    (fd : ℕ) (t : List (Option ℕ))
    → member fd t ≡ false
    → (place fd t ≡ none)
      ⊎ ((t' : List (Option ℕ)) × (i : ℕ) × (place fd t ≡ some (t', i)) × Placed fd t t' i)
unfolding place
place-Placed fd [] m = inl refl
place-Placed fd (none ∷ t) m = inr (
  some fd ∷ t,
  0,
  refl,
  record { members = λ q. refl; distinct = λ d. (m, d); above = λ k h. above k h; same = refl },
)
  where
    above :
        (k : ℕ)
        → AllFree (drop k (none ∷ t))
        → AllFree (drop (if leb k 0 then 1 else k) (some fd ∷ t))
    above zero h = h
    above (suc k) h = rw (let z : leb (suc k) 0 ≡ false = ground arith in z) h
place-Placed fd (some g ∷ t) m =
    let m' : member fd t ≡ false = ground (arith, m) in
    elim (place-Placed fd t m') [
      | inl e ↦ inl (rw e)
      | inr (t', i, e, p) ↦ inr (
        some g ∷ t',
        suc i,
        rw e,
        record {
          members = λ q. rw (p.members q) (ground arith);
          distinct = λ d. (rw (p.members g) (ground (arith, m, d.0)), p.distinct d.1);
          above = λ k h. above t' i p k h;
          same = ap suc p.same;
        },
      )
    ]
  where
    above :
        (t' : List (Option ℕ)) (i : ℕ)
        → Placed fd t t' i
        → (k : ℕ) → AllFree (drop k (some g ∷ t))
        → AllFree (drop (if leb k (suc i) then suc (suc i) else k) (some g ∷ t'))
    above t' i p zero h = absurd h
    above t' i p (suc k) h = elim (Bool-cases (leb k i)) [
      | inl e ↦ let z : leb (suc k) (suc i) ≡ true = ground arith in rw z (rw e at (p.above k h))
      | inr e ↦ let z : leb (suc k) (suc i) ≡ false = ground arith in rw z (rw e at (p.above k h))
    ]

-- A new client.
pub admit-Inv :
    (sock1 fd : ℕ) (s : State)
    → Inv sock1 s
    → member fd s.client_sock ≡ false
    → fd ≢ sock1
    → Guarded (Inv sock1) (admit (some fd) s)
unfolding admit
admit-Inv sock1 fd s i m d = elim (place-Placed fd s.client_sock m) [
  | inl e ↦ rw e tt
  | inr (t', k, e, p) ↦ rw e (record {
    agrees = λ q. rw (i.agrees q, p.members q) (ground arith);
    distinct = p.distinct i.distinct;
    other = rw (p.members sock1, i.other) (ground (arith, d));
    bounded = λ q h. bound q h;
    above = p.above s.top i.above;
  })
]
  where
    bound :
        (q : ℕ)
        → fd_set fd s.gesamt_sock q ≡ true
        → q ≤ (if ltb s.sock_max fd then fd else s.sock_max)
    bound q h = elim (Bool-cases (q == fd)) [
      | inl e ↦ ground arith
      | inr e ↦ let le = i.bounded q (rw e at h) in ground (arith, le)
    ]
