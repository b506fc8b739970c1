-- ===== src/Common/Faults.antt =====
-- What a C function does besides returning: undefined behaviour and the end of the process are
-- values, and a loop that has used up its fuel is told apart from both.
use Prim.Native.Nat.{ℕ}
use mathlib.Core.Path.{◌≡◌, refl}
use mathlib.Core.Bool.{Bool, true, false}

-- Undefined behaviour.
pub data Fault : Type 0 where
  read_out_of_bounds write_out_of_bounds null_pointer dangling_pointer : Fault

-- `ok` is a return, `exit` the end of the process with that code.
pub data Outcome {ℓ} (A : Type ℓ) : Type ℓ where
  ok : A → Outcome A
  fault : Fault → Outcome A
  exit : ℕ → Outcome A
  out_of_fuel : Outcome A

infixl 5 ◌>>=◌ ◌>>◌
abbrev pub ◌>>=◌ {ℓ κ} : {A : Type ℓ} {B : Type κ} → Outcome A → (A → Outcome B) → Outcome B
ok a >>= f = f a
fault e >>= f = fault e
exit c >>= f = exit c
out_of_fuel >>= f = out_of_fuel

abbrev pub ◌>>◌ {ℓ} : {B : Type ℓ} → Outcome (Unit {0}) → Outcome B → Outcome B
m >> k = m >>= λ _. k

-- Goes on if the access is in bounds.
abbrev pub check : Bool → Fault → Outcome (Unit {0})
check true e = ok tt
check false e = fault e

pub >>=_assoc {ℓ κ μ} :
    {A : Type ℓ} {B : Type κ} {C : Type μ} (m : Outcome A) (f : A → Outcome B) (g : B → Outcome C)
    → (m >>= λ a. f a >>= g) ≡ ((m >>= f) >>= g)
>>=_assoc (ok a) f g = refl
>>=_assoc (fault e) f g = refl
>>=_assoc (exit c) f g = refl
>>=_assoc out_of_fuel f g = refl

-- A run that returns with `P` or ends the process, without a fault.
abbrev pub Guarded {ℓ} : {A : Type ℓ} → (A → Type 0) → Outcome A → Type 0
Guarded P (ok a) = P a
Guarded P (fault e) = ⊥
Guarded P (exit c) = Unit
Guarded P out_of_fuel = ⊥

pub Guarded-bind {ℓ κ} :
    {A : Type ℓ} {B : Type κ} (P : A → Type 0) (Q : B → Type 0) (m : Outcome A) (f : A → Outcome B)
    → Guarded P m
    → ((a : A) → P a → Guarded Q (f a))
    → Guarded Q (m >>= f)
Guarded-bind P Q (ok a) f h k = k a h
Guarded-bind P Q (fault e) f h k = absurd h
Guarded-bind P Q (exit c) f h k = tt
Guarded-bind P Q out_of_fuel f h k = absurd h

-- A run that ends: by a fault, or with `P`.
abbrev pub Ends : {A : Type 0} → (A → Type 0) → Outcome A → Type 0
Ends P (ok a) = P a
Ends P (fault e) = Unit
Ends P (exit c) = Unit
Ends P out_of_fuel = ⊥

pub Ends-bind :
    {A B : Type 0} (P : A → Type 0) (Q : B → Type 0) (m : Outcome A) (k : A → Outcome B)
    → Ends P m
    → ((a : A) → P a → Ends Q (k a))
    → Ends Q (m >>= k)
Ends-bind P Q (ok a) k h f = f a h
Ends-bind P Q (fault e) k h f = tt
Ends-bind P Q (exit c) k h f = tt
Ends-bind P Q out_of_fuel k h f = absurd h
