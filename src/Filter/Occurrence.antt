-- ===== src/Filter/Occurrence.antt =====
-- strstr finds a word exactly where it occurs.
use linux_unix_development.Common.{
  ℕ, ◌≡◌, refl, ap, ap₂, ◌∙◌, sym, inl, inr, true, List, [], ◌∷◌, ◌++◌, ◌==◌, ==_iff, Bool-cases, ℕ,
  arith,
}
use mathlib.Core.Logic.{◌↔◌}
use linux_unix_development.Filter.{is_prefix, strstr}

-- The word occurs in the text.
abbrev pub Occurs : List ℕ → List ℕ → Type 0
Occurs f p = (a : List ℕ) × (b : List ℕ) × (p ≡ a ++ (f ++ b))

is_prefix-split : (f p : List ℕ) → is_prefix f p ≡ true → (b : List ℕ) × (p ≡ f ++ b)
is_prefix-split [] p h = (p, refl)
is_prefix-split (a ∷ f) [] h = absurd (cc)
is_prefix-split (a ∷ f) (c ∷ p) h = elim (Bool-cases (a == c)) [
  | inl e ↦
      let h' : is_prefix f p ≡ true = rw e at h in
      let (b, t) = is_prefix-split f p h' in
      let same : a ≡ c = (==_iff a c).0 e in (b, ap₂ ◌∷◌ (sym same) t)
  | inr e ↦ absurd (let h' = rw e at h in cc)
]

is_prefix-append : (f b : List ℕ) → is_prefix f (f ++ b) ≡ true
is_prefix-append [] b = refl
is_prefix-append (a ∷ f) b = ground (arith, is_prefix-append f b)

strstr-Occurs : (p f : List ℕ) → strstr p f ≡ true → Occurs f p
unfolding strstr
strstr-Occurs [] f h = let (b, e) = is_prefix-split f [] h in ([], b, e)
strstr-Occurs (c ∷ p) f h = elim (Bool-cases (is_prefix f (c ∷ p))) [
  | inl e ↦ let (b, t) = is_prefix-split f (c ∷ p) e in ([], b, t)
  | inr e ↦
      let h' : strstr p f ≡ true = rw e at h in
      let (a, b, t) = strstr-Occurs p f h' in (c ∷ a, b, ap (λ l. c ∷ l) t)
]

strstr-nil : (p : List ℕ) → strstr p [] ≡ true
unfolding strstr
strstr-nil [] = refl
strstr-nil (c ∷ p) = refl

strstr-prefix : (f b : List ℕ) → strstr (f ++ b) f ≡ true
unfolding strstr
strstr-prefix [] b = strstr-nil b
strstr-prefix (c ∷ f) b = rw (is_prefix-append (c ∷ f) b) refl

strstr-append : (a f b : List ℕ) → strstr (a ++ (f ++ b)) f ≡ true
unfolding strstr
strstr-append [] f b = strstr-prefix f b
strstr-append (c ∷ a) f b = ground (arith, strstr-append a f b)

-- strstr finds a word exactly if it occurs in the text: if the text is that word with something
-- before and behind it.
pub strstr_iff : (p f : List ℕ) → (strstr p f ≡ true) ↔ Occurs f p
strstr_iff p f = (strstr-Occurs p f, λ (a, b, e). ap (λ t. strstr t f) e ∙ strstr-append a f b)
