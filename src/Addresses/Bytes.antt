-- ===== src/Addresses/Bytes.antt =====
-- The four bytes of an address, and what the functions of addr.c make of them.
use linux_unix_development.Common.{ℕ, ◌+◌, ◌*◌, ◌<◌, ◌≡◌, arith}
use Prim.Native.Nat.{bit_or}
use linux_unix_development.Addresses.{ntohl}
use linux_unix_development.Addresses.Bits.{Shifted, Fits, bit_or-apart}

-- The address a.b.c.d in memory.
abbrev pub quad : (a b c d : ℕ) → ℕ
quad a b c d = a + b * 256 + c * 65536 + d * 16777216

pub record AreBytes (a b c d : ℕ) : Type 0 where
  pub a_byte : a < 256
  pub b_byte : b < 256
  pub c_byte : c < 256
  pub d_byte : d < 256

pub ntohl-quad : (a b c d : ℕ) → AreBytes a b c d → ntohl (quad a b c d) ≡ quad d c b a
unfolding ntohl
ntohl-quad a b c d h = omega (arith, h.a_byte, h.b_byte, h.c_byte, h.d_byte)

pub or-8 : (m d : ℕ) → d < 256 → bit_or (m * 256) d ≡ m * 256 + d
unfolding Shifted Fits
or-8 m d h = bit_or-apart 8 (m * 256) d (omega arith) (omega (arith, h))

pub or-16 : (m d : ℕ) → d < 65536 → bit_or (m * 65536) d ≡ m * 65536 + d
unfolding Shifted Fits
or-16 m d h = bit_or-apart 16 (m * 65536) d (omega arith) (omega (arith, h))
