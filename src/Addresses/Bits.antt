-- ===== src/Addresses/Bits.antt =====
-- The or of two numbers that have no digit in common is their sum.
use Prim.Native.Nat.{max, digits, bit_or, bit_or-bitwise}
use linux_unix_development.Common.{ℕ, zero, suc, ◌+◌, ◌/◌, ◌%◌, ◌≤◌, ◌≡◌, refl, ap, ◌∙◌, arith}

-- The lowest `k` binary digits are zero; the number has at most `k` binary digits.
unfoldable pub Shifted : ℕ → ℕ → Type 0
Shifted zero a = Unit
Shifted (suc k) a = (a % 2 ≡ 0) × Shifted k (a / 2)

unfoldable pub Fits : ℕ → ℕ → Type 0
Fits zero b = b ≡ 0
Fits (suc k) b = Fits k (b / 2)

abbrev or_digits : (n a b : ℕ) → ℕ
or_digits n a b = digits (λ b. b) max n a b

or_digits-zero : (n a : ℕ) → a ≤ n → or_digits n a 0 ≡ a
or_digits-zero zero a h = omega arith
or_digits-zero (suc n) zero h = refl
or_digits-zero (suc n) (suc a) h = omega (arith, or_digits-zero n (suc a / 2) (omega (arith, h)))

or_digits-apart : (k n a b : ℕ) → a ≤ n → Shifted k a → Fits k b → or_digits n a b ≡ a + b
unfolding Shifted Fits
or_digits-apart zero n a b h s f = ap (or_digits n a) f ∙ or_digits-zero n a h ∙ omega (arith, f)
or_digits-apart (suc k) zero a b h s f = omega (arith, h)
or_digits-apart (suc k) (suc n) zero b h s f = omega arith
or_digits-apart (suc k) (suc n) (suc a) b h s f =
    omega (arith, s.0, or_digits-apart k n (suc a / 2) (b / 2) (omega (arith, h)) s.1 f)

pub bit_or-apart : (k a b : ℕ) → Shifted k a → Fits k b → bit_or a b ≡ a + b
bit_or-apart k a b s f = bit_or-bitwise a b ∙ or_digits-apart k a a b (omega arith) s f
