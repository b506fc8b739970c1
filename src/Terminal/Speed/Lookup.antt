-- ===== src/Terminal/Speed/Lookup.antt =====
-- The search in the table of speeds.
use linux_unix_development.Common.{
  ℕ, ◌≡◌, ◌≢◌, refl, ap, sym, ◌⊎◌, inl, inr, List, [], ◌∷◌, ◌==◌, ==_iff, Bool-cases,
  read_out_of_bounds, ok, fault, arith,
}
use linux_unix_development.Terminal.Speed.{values, search, baudrate_wert}

-- A value of the table.
abbrev pub Listed : ℕ → List ℕ → Type 0
Listed v [] = ⊥
Listed v (i ∷ is) = (v ≡ i) ⊎ Listed v is

-- The constants of termios are different from each other.
abbrev pub IsSpeed : (ℕ → ℕ) → Type 0
IsSpeed speed = (i j : ℕ) → speed i ≡ speed j → i ≡ j

search-Listed :
    (speed : ℕ → ℕ) (h : IsSpeed speed) (v : ℕ) (is : List ℕ)
    → Listed v is
    → search speed (speed v) is ≡ ok v
unfolding search
search-Listed speed h v [] l = absurd l
search-Listed speed h v (i ∷ is) l = elim (Bool-cases (speed v == speed i)) [
  | inl e ↦ rw e (ap ok (sym (h v i ((==_iff (speed v) (speed i)).0 e))))
  | inr e ↦ rw e (elim l [
    | inl same ↦ absurd (ground (arith, e, ap speed same))
    | inr there ↦ search-Listed speed h v is there
  ])
]

-- The constant of a speed in the table is found, with its value.
pub baudrate_wert-Listed :
    (speed : ℕ → ℕ) (v : ℕ) → IsSpeed speed → Listed v values → baudrate_wert speed (speed v) ≡ ok v
unfolding baudrate_wert
baudrate_wert-Listed speed v h l = search-Listed speed h v values l

abbrev pub Unlisted : (ℕ → ℕ) → ℕ → List ℕ → Type 0
Unlisted speed baud [] = Unit
Unlisted speed baud (i ∷ is) = (baud ≢ speed i) × Unlisted speed baud is

search-Unlisted :
    (speed : ℕ → ℕ) (baud : ℕ) (is : List ℕ)
    → Unlisted speed baud is
    → search speed baud is ≡ fault read_out_of_bounds
unfolding search
search-Unlisted speed baud [] u = refl
search-Unlisted speed baud (i ∷ is) u = ground (arith, u.0, search-Unlisted speed baud is u.1)

-- For a constant that is none of the table's the search does not return -1: it reads behind the last
-- row.
pub baudrate_wert-Unlisted :
    (speed : ℕ → ℕ) (baud : ℕ)
    → Unlisted speed baud values
    → baudrate_wert speed baud ≡ fault read_out_of_bounds
unfolding baudrate_wert
baudrate_wert-Unlisted speed baud u = search-Unlisted speed baud values u
