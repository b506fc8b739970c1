-- ===== src/Filter/Unchanged.antt =====
-- Words that hold no filter word are printed as they are.
use linux_unix_development.Common.{
  ℕ, ◌≡◌, refl, ap, ap₂, ◌∙◌, sym, subst, inl, inr, false, List, [], ◌∷◌, ◌++◌, append-nil,
  append_assoc, ◌==◌, Bool-cases, arith,
}
use linux_unix_development.Filter.{
  filterwords, tokens_from, strstr, mask, put_word, put_words, output,
}
use linux_unix_development.Filter.Occurrence.{Occurs, strstr_iff}
use linux_unix_development.Filter.Clean.{OneOf, NoSpace}

-- A word that strtok gives, in which no filter word occurs.
pub record IsHarmless (p : List ℕ) : Type 0 where
  pub first : ℕ
  pub others : List ℕ
  pub shape : p ≡ first ∷ others
  pub spaceless : NoSpace p
  pub free : (w : List ℕ) → OneOf w filterwords → Occurs w p → ⊥

abbrev pub AllHarmless : List (List ℕ) → Type 0
AllHarmless [] = Unit
AllHarmless (p ∷ ps) = IsHarmless p × AllHarmless ps

-- The words, each with a space behind it.
abbrev pub spaced : List (List ℕ) → List ℕ
spaced [] = []
spaced (p ∷ ps) = p ++ (32 ∷ spaced ps)

tokens_from-space :
    (c : ℕ) (w cs r : List ℕ)
    → NoSpace cs
    → tokens_from (c ∷ w) (cs ++ (32 ∷ r)) ≡ ((c ∷ w) ++ cs) ∷ tokens_from [] r
unfolding tokens_from
tokens_from-space c w [] r h = ap (λ l. l ∷ tokens_from [] r) (sym (append-nil (c ∷ w)))
tokens_from-space c w (d ∷ cs) r h =
    let other : (d == 32) ≡ false = ground (arith, h.0) in
    rw other (
      tokens_from-space c (w ++ (d ∷ [])) cs r h.1
      ∙ ap (λ l. l ∷ tokens_from [] r) (append_assoc (c ∷ w) (d ∷ []) cs))

tokens_from-spaced : (ps : List (List ℕ)) → AllHarmless ps → tokens_from [] (spaced ps) ≡ ps
unfolding tokens_from
tokens_from-spaced [] h = refl
tokens_from-spaced (p ∷ ps) h =
    ap (λ l. tokens_from [] (l ++ (32 ∷ spaced ps))) h.0.shape
    ∙ start (subst NoSpace h.0.shape h.0.spaceless)
    ∙ ap₂ ◌∷◌ (sym h.0.shape) (tokens_from-spaced ps h.1)
  where
    start :
        NoSpace (h.0.first ∷ h.0.others)
        → tokens_from [] ((h.0.first ∷ h.0.others) ++ (32 ∷ spaced ps))
          ≡ (h.0.first ∷ h.0.others) ∷ tokens_from [] (spaced ps)
    start n =
        let other : (h.0.first == 32) ≡ false = ground (arith, n.0) in
        rw (other, tokens_from) (tokens_from-space h.0.first [] h.0.others (spaced ps) n.1)

mask-free :
    (p : List ℕ) (fs : List (List ℕ))
    → ((w : List ℕ) → OneOf w fs → Occurs w p → ⊥)
    → (mask p fs).1 ≡ false
unfolding mask
mask-free p [] h = refl
mask-free p (f ∷ fs) h = elim (Bool-cases (strstr p f)) [
  | inl e ↦ absurd (h f (inl refl) ((strstr_iff p f).0 e))
  | inr e ↦ rw e (mask-free p fs (λ w o. h w (inr o)))
]

put_words-spaced : (ps : List (List ℕ)) → AllHarmless ps → put_words ps ≡ spaced ps
unfolding put_words put_word
put_words-spaced [] h = refl
put_words-spaced (p ∷ ps) h =
    rw (mask-free p filterwords h.0.free)
      (append_assoc p (32 ∷ []) (put_words ps) ∙ ap (λ l. p ++ (32 ∷ l)) (put_words-spaced ps h.1))

-- Words without a space, each with one space behind it, are printed unchanged if no filter word occurs
-- in any of them.
pub output-unchanged : (ps : List (List ℕ)) → AllHarmless ps → output (spaced ps) ≡ spaced ps
unfolding output
output-unchanged ps h = ap put_words (tokens_from-spaced ps h) ∙ put_words-spaced ps h
