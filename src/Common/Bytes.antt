-- ===== src/Common/Bytes.antt =====
-- Bytes, C strings in arrays of bytes, and literals.
use Prim.Native.Nat.{ℕ, ◌<◌}
use Prim.Native.Char.{code}
use Prim.Native.String.{String}
use mathlib.Core.Path.{◌≡◌, refl, ap}
use mathlib.Core.List.{List, [], ◌∷◌, ◌++◌}
use native.Mathlib.Omega.{arith}
use mathlib.Core.Bool.{Bool, true, false}
use mathlib.Core.Logic.{inl, inr}
use linux_unix_development.Common.Tests.{◌==◌, if◌then◌else◌, Bool-cases, ==_iff}
use linux_unix_development.Common.Lists.{length}

-- The bytes of a literal, which is ASCII.
abbrev pub codes : String → List ℕ
codes String.[] = []
codes (String.◌∷◌ c s) = code c ∷ codes s

-- The C string at the start of an array: what stands before its first NUL.
abbrev pub c_string : List ℕ → List ℕ
c_string [] = []
c_string (c ∷ cs) = if c == 0 then [] else c ∷ c_string cs

-- strcmp(a, b) == 0, on the strings themselves.
abbrev pub str_eq : List ℕ → List ℕ → Bool
str_eq [] [] = true
str_eq (x ∷ xs) (y ∷ ys) = if x == y then str_eq xs ys else false
str_eq _ _ = false

-- "\r\n"
abbrev pub crlf : List ℕ
crlf = 13 ∷ 10 ∷ []

-- No byte of a text is NUL.
abbrev pub NoNul : List ℕ → Type 0
NoNul [] = Unit
NoNul (c ∷ cs) = (0 < c) × NoNul cs

pub NoNul-append : (x y : List ℕ) → NoNul x → NoNul y → NoNul (x ++ y)
NoNul-append [] y h k = k
NoNul-append (c ∷ x) y h k = (h.0, NoNul-append x y h.1 k)

-- A text with a NUL behind it is its own string.
pub c_string-terminated : (x r : List ℕ) → NoNul x → c_string (x ++ (0 ∷ r)) ≡ x
c_string-terminated [] r h = refl
c_string-terminated (c ∷ x) r h = ground (arith, h.0, c_string-terminated x r h.1)

-- An array is its string, a NUL and a rest, where the string is shorter than the array.
pub c_string-split :
    (t : List ℕ) → length (c_string t) < length t → (r : List ℕ) × (t ≡ c_string t ++ (0 ∷ r))
c_string-split [] h = absurd (omega arith)
c_string-split (c ∷ t) h = elim (Bool-cases (c == 0)) [
  | inl z ↦ (t, rw z (ap (λ n. n ∷ t) ((==_iff c 0).0 z)))
  | inr z ↦ let (r, e) = c_string-split t (ground arith) in (r, rw z (ap (λ y. c ∷ y) e))
]

pub NoNul-c_string : (t : List ℕ) → NoNul (c_string t)
NoNul-c_string [] = tt
NoNul-c_string (c ∷ t) = elim (Bool-cases (c == 0)) [
  | inl z ↦ rw z tt
  | inr z ↦ rw z (ground arith, NoNul-c_string t)
]

pub str_eq_refl : (x : List ℕ) → str_eq x x ≡ true
str_eq_refl [] = refl
str_eq_refl (c ∷ x) = ground (arith, str_eq_refl x)
