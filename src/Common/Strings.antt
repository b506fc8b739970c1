-- ===== src/Common/Strings.antt =====
-- strcpy, strcat and fgets on arrays whose size is the length of the list.
pub mod Lines
use Prim.Native.Nat.{ℕ, zero, suc, ◌<◌}
use mathlib.Core.Path.{◌≡◌}
use mathlib.Core.List.{List, [], ◌∷◌, ◌++◌}
use native.Mathlib.Omega.{arith}
use linux_unix_development.Common.Tests.{ltb, lt→ltb, if◌then◌else◌, ◌==◌}
use linux_unix_development.Common.Lists.{
  length, length-replicate, length-append, length-drop, drop, replicate,
}
use linux_unix_development.Common.Faults.{write_out_of_bounds, Outcome, ok, fault}
use linux_unix_development.Common.Bytes.{c_string, c_string-terminated, NoNul}

-- The array `dst` after the bytes `x` and a NUL were written at its start.
abbrev pub store : List ℕ → List ℕ → Outcome (List ℕ)
store dst x =
    if ltb (length x) (length dst)
    then ok (x ++ (0 ∷ drop (suc (length x)) dst))
    else fault write_out_of_bounds

-- strcpy(dst, src)
abbrev pub strcpy : List ℕ → List ℕ → Outcome (List ℕ)
strcpy dst src = store dst (c_string src)

-- strcat(dst, src)
abbrev pub strcat : List ℕ → List ℕ → Outcome (List ℕ)
strcat dst src = store dst (c_string dst ++ c_string src)

-- The bytes that fgets takes from a stream with room for `n` of them, and the rest of the stream:
-- it stops behind a newline.
unfoldable pub line : ℕ → List ℕ → List ℕ × List ℕ
line zero cs = ([], cs)
line (suc n) [] = ([], [])
line (suc n) (c ∷ cs) = let (l, rest) = line n cs in if c == 10 then (c ∷ [], cs) else (c ∷ l, rest)

-- An array of `n` zeros, `char a[n] = {0}`.
unfoldable pub zeros : ℕ → List ℕ
zeros n = replicate n 0

pub length-zeros : (n : ℕ) → length (zeros n) ≡ n
unfolding zeros
length-zeros n = length-replicate n 0

-- The array after a text without NUL was stored in it.
pub store-text :
    (dst x : List ℕ)
    → NoNul x
    → length x < length dst
    → (p : List ℕ) × (store dst x ≡ ok p) × (c_string p ≡ x) × (length p ≡ length dst)
store-text dst x h l = (
  x ++ (0 ∷ drop (suc (length x)) dst),
  rw (lt→ltb (length x) (length dst) l),
  c_string-terminated x (drop (suc (length x)) dst) h,
  omega (arith, length-append x (0 ∷ drop (suc (length x)) dst), length-drop (suc (length x)) dst),
)
