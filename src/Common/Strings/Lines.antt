-- ===== src/Common/Strings/Lines.antt =====
-- What fgets takes from a stream.
use Prim.Native.Nat.{ℕ, zero, suc, ◌≤◌, ◌<◌}
use mathlib.Core.Path.{◌≡◌, refl, ap}
use mathlib.Core.Logic.{inl, inr}
use mathlib.Core.List.{List, [], ◌∷◌, ◌++◌}
use native.Mathlib.Omega.{arith}
use mathlib.Core.Bool.{false}
use linux_unix_development.Common.Tests.{◌==◌, Bool-cases}
use linux_unix_development.Common.Lists.{length}
use linux_unix_development.Common.Bytes.{c_string, NoNul}
use linux_unix_development.Common.Strings.{line}

-- What fgets takes is the beginning of the stream, not empty, and at most `n` bytes.
pub line-split : (n : ℕ) (cs : List ℕ) → cs ≡ (line n cs).0 ++ (line n cs).1
unfolding line
line-split zero cs = refl
line-split (suc n) [] = refl
line-split (suc n) (c ∷ cs) = elim (Bool-cases (c == 10)) [
  | inl e ↦ rw e refl
  | inr e ↦ rw e (ap (λ l. c ∷ l) (line-split n cs))
]

pub line-short : (n : ℕ) (cs : List ℕ) → length (line n cs).0 ≤ n
unfolding line
line-short zero cs = omega arith
line-short (suc n) [] = omega arith
line-short (suc n) (c ∷ cs) = elim (Bool-cases (c == 10)) [
  | inl e ↦ rw e (omega arith)
  | inr e ↦ rw e (omega (arith, line-short n cs))
]

pub line-progress : (n c : ℕ) (cs : List ℕ) → 0 < n → 0 < length (line n (c ∷ cs)).0
unfolding line
line-progress zero c cs h = absurd (omega arith)
line-progress (suc n) c cs h = elim (Bool-cases (c == 10)) [
  | inl e ↦ rw e (omega arith)
  | inr e ↦ rw e (omega arith)
]

-- A text without NUL is taken whole as a string.
pub c_string-line : (n : ℕ) (cs : List ℕ) → NoNul cs → c_string (line n cs).0 ≡ (line n cs).0
unfolding line
c_string-line zero cs h = refl
c_string-line (suc n) [] h = refl
c_string-line (suc n) (c ∷ cs) h = elim (Bool-cases (c == 10)) [
  | inl e ↦ rw e (ground (arith, h.0))
  | inr e ↦ rw e (ground (arith, h.0, c_string-line n cs h.1))
]

-- A line that was read is read whole again.
pub line-line : (n : ℕ) (cs : List ℕ) → line n (line n cs).0 ≡ ((line n cs).0, [])
unfolding line
line-line zero cs = refl
line-line (suc n) [] = refl
line-line (suc n) (c ∷ cs) = elim (Bool-cases (c == 10)) [
  | inl e ↦ rw (e, e) refl
  | inr e ↦ rw (e, e, line-line n cs) refl
]

abbrev pub NoNewline : List ℕ → Type 0
NoNewline [] = Unit
NoNewline (c ∷ cs) = ((c == 10) ≡ false) × NoNewline cs

-- A line that fits is read whole.
pub line-whole :
    (n : ℕ) (x rest : List ℕ)
    → NoNewline x
    → length x < n
    → line n (x ++ (10 ∷ rest)) ≡ (x ++ (10 ∷ []), rest)
unfolding line
line-whole zero x rest h l = absurd (omega arith)
line-whole (suc n) [] rest h l = refl
line-whole (suc n) (c ∷ x) rest h l = rw (h.0, line-whole n x rest h.1 (omega arith)) refl
