-- ===== src/Files/Rights/Value.antt =====
-- The letters tell the rights.
use linux_unix_development.Common.{
  ℕ, ◌+◌, ◌*◌, ◌/◌, ◌%◌, ◌≡◌, refl, inl, inr, false, List, ◌∷◌, ◌==◌, ==_iff, if◌then◌else◌,
  Bool-cases, arith,
}
use linux_unix_development.Files.Rights.{bits, is_set, letters, l_rwx}

-- The sum of the masks at which no dash stands.
pub value : List ℕ → List ℕ → ℕ
value (b ∷ bs) (c ∷ cs) = let rest = value bs cs in (if c == 45 then 0 else b) + rest
value _ _ = 0

weight :
    (mode b c : ℕ)
    → (c == 45) ≡ false
    → (if (if is_set mode b then c else 45) == 45 then 0 else b) ≡ b * ((mode / b) % 2)
weight mode b c h = elim (Bool-cases (is_set mode b)) [
  | inl e ↦
      let one : (mode / b) % 2 ≡ 1 = (==_iff ((mode / b) % 2) 1).0 e in rw (e, h, one) (omega arith)
  | inr e ↦ let zero : (mode / b) % 2 ≡ 0 = ground (arith, e) in rw (e, zero) (omega arith)
]

-- The nine letters of l_rwx stand for the nine lowest bits of the mode: the masks without a dash add
-- up to them.
pub value-l_rwx : (mode : ℕ) → value bits (l_rwx mode) ≡ mode % 512
unfolding value l_rwx letters
value-l_rwx mode = omega (
  arith,
  weight mode 256 114 refl,
  weight mode 128 119 refl,
  weight mode 64 120 refl,
  weight mode 32 114 refl,
  weight mode 16 119 refl,
  weight mode 8 120 refl,
  weight mode 4 114 refl,
  weight mode 2 119 refl,
  weight mode 1 120 refl,
)
