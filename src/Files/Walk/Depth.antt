-- ===== src/Files/Walk/Depth.antt =====
-- dir_deep counts.
use linux_unix_development.Common.{
  ℕ, zero, suc, ◌+◌, ◌<◌, ◌≡◌, ap, ◌∙◌, inl, inr, List, [], ◌∷◌, ◌++◌, ◌==◌, Bool-cases,
  if◌then◌else◌, length, ok, arith,
}
use linux_unix_development.Files.Walk.{strchr, deep_round, deep_loop, dir_deep}

-- The slashes of a path.
unfoldable pub slashes : List ℕ → ℕ
slashes [] = 0
slashes (c ∷ cs) = let n = slashes cs in if c == b'/' then suc n else n

pub slashes-append : (x y : List ℕ) → slashes (x ++ y) ≡ slashes x + slashes y
unfolding slashes
slashes-append [] y = omega arith
slashes-append (c ∷ x) y = elim (Bool-cases (c == b'/')) [
  | inl e ↦ rw e (omega (arith, slashes-append x y))
  | inr e ↦ rw e (slashes-append x y)
]

-- A round finds the next slash.
deep_round-slashes :
    (p : List ℕ) (fuel : ℕ)
    → ((q : List ℕ) (m : ℕ) → length q < fuel → deep_loop fuel q m ≡ ok (m + slashes q))
    → (n : ℕ) → length p < suc fuel
    → deep_round (deep_loop fuel) n (strchr p b'/') ≡ ok (n + slashes p)
unfolding strchr slashes
deep_round-slashes [] fuel h n l = ap (λ k. ok k) (omega arith)
deep_round-slashes (c ∷ p) fuel h n l = elim (Bool-cases (c == b'/')) [
  | inl e ↦ rw e (h p (suc n) (omega arith) ∙ ap (λ k. ok k) (omega arith))
  | inr e ↦ rw e (deep_round-slashes p fuel h n (omega arith))
]

deep_loop-slashes :
    (fuel : ℕ) (p : List ℕ) (n : ℕ) → length p < fuel → deep_loop fuel p n ≡ ok (n + slashes p)
unfolding deep_loop
deep_loop-slashes zero p n l = absurd (omega arith)
deep_loop-slashes (suc fuel) p n l = deep_round-slashes p fuel (deep_loop-slashes fuel) n l

-- On every path dir_deep ends, and gives the number of its slashes.
pub dir_deep-slashes : (p : List ℕ) → dir_deep p ≡ ok (slashes p)
unfolding dir_deep
dir_deep-slashes p =
    deep_loop-slashes (suc (length p)) p 0 (omega arith) ∙ ap (λ k. ok k) (omega arith)
