-- ===== src/Common/Decimal.antt =====
-- The conversion %d of printf and scanf, for numbers that are not negative.
use Prim.Native.Nat.{ℕ, zero, suc, ◌+◌, ◌-◌, ◌*◌, ◌/◌, ◌%◌, ◌≤◌, ◌<◌}
use mathlib.Core.Path.{◌≡◌, refl, sym, ap, ◌∙◌}
use mathlib.Core.Option.{Option, none, some}
use mathlib.Core.Logic.{inl, inr}
use mathlib.Core.List.{List, [], ◌∷◌, ◌++◌, append_assoc}
use mathlib.Core.Bool.{Bool, true, false, ◌&&◌, ◌||◌}
use native.Mathlib.Omega.{arith}
use linux_unix_development.Common.Bytes.{NoNul, NoNul-append}
use linux_unix_development.Common.Lists.{length, length-append}
use linux_unix_development.Common.Tests.{
  ltb, leb, lt→ltb, not-lt→ltb, if◌then◌else◌, Bool-cases, ◌==◌,
}

digits : ℕ → ℕ → List ℕ
digits zero n = []
digits (suc f) n =
    let front = digits f (n / 10) in if ltb n 10 then (48 + n) ∷ [] else front ++ (48 + n % 10) ∷ []

-- The text that %d prints.
unfoldable pub print : ℕ → List ℕ
unfolding digits
print n = digits (suc n) n

abbrev pub is_digit : ℕ → Bool
is_digit c = leb 48 c && leb c 57

-- The number that %d reads from the digits at the start, and what is left of the text.
unfoldable pub scan : ℕ → List ℕ → ℕ × List ℕ
scan n [] = (n, [])
scan n (c ∷ cs) = if is_digit c then scan (n * 10 + (c - 48)) cs else (n, c ∷ cs)

is_digit-add : (d : ℕ) → d < 10 → is_digit (48 + d) ≡ true
is_digit-add d h = ground arith

scan-digit : (n d : ℕ) (rest : List ℕ) → d < 10 → scan n ((48 + d) ∷ rest) ≡ scan (n * 10 + d) rest
unfolding scan
scan-digit n d rest h = rw (is_digit-add d h) (ap (λ k. scan k rest) (omega arith))

scan-digits : (f n : ℕ) (rest : List ℕ) → n < f → scan 0 (digits f n ++ rest) ≡ scan n rest
unfolding digits
scan-digits zero n rest h = absurd (omega arith)
scan-digits (suc f) n rest h = elim (Bool-cases (ltb n 10)) [
  | inl one ↦
      rw (one, digits) (scan-digit 0 n rest (ground arith) ∙ ap (λ k. scan k rest) (omega arith))
  | inr more ↦
      rw (more, digits)
        (ap (scan 0) (append_assoc (digits f (n / 10)) ((48 + n % 10) ∷ []) rest)
          ∙ scan-digits f (n / 10) ((48 + n % 10) ∷ rest) (ground arith)
          ∙ scan-digit (n / 10) (n % 10) rest (omega arith)
          ∙ ap (λ k. scan k rest) (omega arith))
]

-- No digit stands at the start of a text.
abbrev pub Stops : List ℕ → Type 0
Stops [] = Unit
Stops (c ∷ cs) = is_digit c ≡ false

scan-Stops : (n : ℕ) (rest : List ℕ) → Stops rest → scan n rest ≡ (n, rest)
unfolding scan
scan-Stops n [] h = refl
scan-Stops n (c ∷ cs) h = rw h

-- Reading what was printed, up to what is no digit.
pub scan-print : (n : ℕ) (rest : List ℕ) → scan 0 (print n ++ rest) ≡ scan n rest
unfolding print
scan-print n rest = scan-digits (suc n) n rest (omega arith)

NoNul-digits : (f n : ℕ) → NoNul (digits f n)
unfolding digits
NoNul-digits zero n = tt
NoNul-digits (suc f) n = elim (Bool-cases (ltb n 10)) [
  | inl one ↦ rw (one, digits) (omega arith, tt)
  | inr more ↦
      rw (more, digits)
        (NoNul-append (digits f (n / 10)) ((48 + n % 10) ∷ []) (NoNul-digits f (n / 10))
          (omega arith, tt))
]

pub NoNul-print : (n : ℕ) → NoNul (print n)
unfolding print
NoNul-print n = NoNul-digits (suc n) n

digits-first :
    (f n : ℕ) → n < f → (d : ℕ) × (ds : List ℕ) × (digits f n ≡ d ∷ ds) × (is_digit d ≡ true)
unfolding digits
digits-first zero n h = absurd (omega arith)
digits-first (suc f) n h = elim (Bool-cases (ltb n 10)) [
  | inl one ↦ (48 + n, [], rw (one, digits), ground arith)
  | inr more ↦
      let (d, ds, e, t) = digits-first f (n / 10) (ground arith) in
      (d, ds ++ (48 + n % 10) ∷ [], rw (more, digits) (ap (λ y. y ++ (48 + n % 10) ∷ []) e), t)
]

-- What %d reads: white space, then at least one digit. A sign is left out.
abbrev pub is_space : ℕ → Bool
is_space c = c == 32 || leb 9 c && leb c 13

unfoldable pub skip_space : List ℕ → List ℕ
skip_space [] = []
skip_space (c ∷ cs) = if is_space c then skip_space cs else c ∷ cs

digits_at : List ℕ → Option (ℕ × List ℕ)
digits_at [] = none
digits_at (c ∷ cs) = if is_digit c then some (scan 0 (c ∷ cs)) else none

unfoldable pub read : List ℕ → Option (ℕ × List ℕ)
unfolding digits_at
read cs = digits_at (skip_space cs)

-- %d reads back what %d printed, up to what is no digit.
pub read-print : (n : ℕ) (rest : List ℕ) → Stops rest → read (print n ++ rest) ≡ some (n, rest)
unfolding read skip_space print
read-print n rest h =
    let (d, ds, e, t) = digits-first (suc n) n (omega arith) in
    let text : print n ++ rest ≡ d ∷ (ds ++ rest) = unfold print in ap (λ y. y ++ rest) e in
    let sp : is_space d ≡ false = ground arith in
    let out = sym (ap (scan 0) text) ∙ scan-print n rest ∙ scan-Stops n rest h in
    rw (e, sp, t) (ap some out)

-- Every byte of a text is a digit.
abbrev pub AllDigits : List ℕ → Type 0
AllDigits [] = Unit
AllDigits (c ∷ cs) = (is_digit c ≡ true) × AllDigits cs

AllDigits-append : (x y : List ℕ) → AllDigits x → AllDigits y → AllDigits (x ++ y)
AllDigits-append [] y h k = k
AllDigits-append (c ∷ x) y h k = (h.0, AllDigits-append x y h.1 k)

AllDigits-digits : (f n : ℕ) → AllDigits (digits f n)
unfolding digits
AllDigits-digits zero n = tt
AllDigits-digits (suc f) n = elim (Bool-cases (ltb n 10)) [
  | inl one ↦ rw (one, digits) (ground arith, tt)
  | inr more ↦
      rw (more, digits)
        (AllDigits-append (digits f (n / 10)) ((48 + n % 10) ∷ []) (AllDigits-digits f (n / 10))
          (is_digit-add (n % 10) (omega arith), tt))
]

pub AllDigits-print : (n : ℕ) → AllDigits (print n)
unfolding print
AllDigits-print n = AllDigits-digits (suc n) n

-- A number of at least ten has one digit more than its tenth.
length-digits : (f n : ℕ) → 10 ≤ n → length (digits (suc f) n) ≡ suc (length (digits f (n / 10)))
unfolding digits
length-digits f n h =
    rw (not-lt→ltb n 10 h) (omega (arith, length-append (digits f (n / 10)) ((48 + n % 10) ∷ [])))

abbrev pub tens : ℕ → ℕ
tens zero = 1
tens (suc k) = 10 * tens k

tens-pos : (k : ℕ) → 1 ≤ tens k
tens-pos zero = omega arith
tens-pos (suc k) = omega (arith, tens-pos k)

digits-at_least : (k f n : ℕ) → tens k ≤ n → n < f → suc k ≤ length (digits f n)
digits-at_least zero f n h l = let (d, ds, e, t) = digits-first f n l in omega (arith, ap length e)
digits-at_least (suc k) zero n h l = absurd (omega arith)
digits-at_least (suc k) (suc f) n h l =
    let big : tens k ≤ n / 10 = omega arith in
    let pos = tens-pos k in
    omega (arith, length-digits f n (omega arith), digits-at_least k f (n / 10) big (omega arith))

digits-at_most : (k f n : ℕ) → n < tens (suc k) → length (digits f n) ≤ suc k
unfolding digits
digits-at_most k zero n h = omega arith
digits-at_most zero (suc f) n h = rw (lt→ltb n 10 (omega arith)) (omega arith)
digits-at_most (suc k) (suc f) n h = elim (Bool-cases (ltb n 10)) [
  | inl one ↦ rw (one, digits) (omega arith)
  | inr more ↦
      let m : 10 ≤ n = ground arith in
      omega (arith, length-digits f n m, digits-at_most k f (n / 10) (omega arith))
]

-- How many digits a number has.
pub length-print-ge : (k n : ℕ) → tens k ≤ n → suc k ≤ length (print n)
unfolding print
length-print-ge k n h = digits-at_least k (suc n) n h (omega arith)

pub length-print-le : (k n : ℕ) → n < tens (suc k) → length (print n) ≤ suc k
unfolding print
length-print-le k n h = digits-at_most k (suc n) n h
