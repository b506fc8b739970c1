-- ===== src/Filter/Clean.antt =====
-- What the filter prints holds no filter word.
use linux_unix_development.Common.{
  ℕ, zero, suc, ◌<◌, ◌≡◌, ◌≢◌, refl, ap, ap₂, ◌∙◌, sym, subst, ◌⊎◌, inl, inr, Bool, true, false,
  ◌&&◌, ◌||◌, List, [], ◌∷◌, ◌++◌, append_assoc, ◌==◌, Bool-cases, replicate, length, length-append,
  ok, arith,
}
use linux_unix_development.Common.Bytes.{c_string}
use linux_unix_development.Common.Strings.{line}
use linux_unix_development.Common.Strings.Lines.{line-split, line-progress}
use linux_unix_development.Filter.{
  filterwords, tokens_from, is_prefix, strstr, mask, put_word, put_words, output, filter_main,
}
use linux_unix_development.Filter.Occurrence.{Occurs, strstr_iff}

-- No byte of a word is a space.
abbrev pub NoSpace : List ℕ → Type 0
NoSpace [] = Unit
NoSpace (c ∷ cs) = (c ≢ 32) × NoSpace cs

-- A word that does not begin with a cross and has no space.
abbrev IsWord : List ℕ → Type 0
IsWord [] = ⊥
IsWord (a ∷ f) = (a ≢ b'x') × (a ≢ 32) × NoSpace f

-- One of the words of a list.
abbrev pub OneOf : List ℕ → List (List ℕ) → Type 0
OneOf w [] = ⊥
OneOf w (f ∷ fs) = (w ≡ f) ⊎ OneOf w fs

filterwords-IsWord : (w : List ℕ) → OneOf w filterwords → IsWord w
filterwords-IsWord w (inl e) = subst IsWord (sym e) (omega arith)
filterwords-IsWord w (inr (inl e)) = subst IsWord (sym e) (omega arith)
filterwords-IsWord w (inr (inr (inl e))) = subst IsWord (sym e) (omega arith)
filterwords-IsWord w (inr (inr (inr (inl e)))) = subst IsWord (sym e) (omega arith)
filterwords-IsWord w (inr (inr (inr (inr e)))) = absurd e

is_prefix-space : (f p r : List ℕ) → NoSpace f → is_prefix f (p ++ (32 ∷ r)) ≡ is_prefix f p
is_prefix-space [] p r h = refl
is_prefix-space (a ∷ f) [] r h = ground (arith, h.0)
is_prefix-space (a ∷ f) (c ∷ p) r h = ap (λ b. a == c && b) (is_prefix-space f p r h.1)

abbrev IsFree : List ℕ → List ℕ → Type 0
IsFree f p = strstr p f ≡ false

-- A word stands on one side of a space.
strstr-space :
    (a : ℕ) (f p r : List ℕ)
    → a ≢ 32
    → NoSpace f
    → strstr (p ++ (32 ∷ r)) (a ∷ f) ≡ (strstr p (a ∷ f) || strstr r (a ∷ f))
unfolding strstr
strstr-space a f [] r n h = ground (arith, n)
strstr-space a f (c ∷ p) r n h =
    ap₂ ◌||◌ (is_prefix-space (a ∷ f) (c ∷ p) r (n, h)) (strstr-space a f p r n h)
    ∙ or_assoc (is_prefix (a ∷ f) (c ∷ p)) (strstr p (a ∷ f)) (strstr r (a ∷ f))
  where
    or_assoc : (x y z : Bool) → (x || (y || z)) ≡ ((x || y) || z)
    or_assoc true y z = refl
    or_assoc false y z = refl

IsFree-space : (f p r : List ℕ) → IsWord f → IsFree f p → IsFree f r → IsFree f (p ++ (32 ∷ r))
IsFree-space [] p r w h k = absurd w
IsFree-space (a ∷ f) p r w h k = strstr-space a f p r w.1 w.2 ∙ rw (h, k) refl

crosses-IsFree : (f : List ℕ) (n : ℕ) → IsWord f → IsFree f (replicate n b'x')
unfolding strstr
crosses-IsFree [] n w = absurd w
crosses-IsFree (a ∷ f) zero w = refl
crosses-IsFree (a ∷ f) (suc n) w = ground (arith, w.0, crosses-IsFree (a ∷ f) n w)

nil-IsFree : (f : List ℕ) → IsWord f → IsFree f []
unfolding strstr
nil-IsFree [] w = absurd w
nil-IsFree (a ∷ f) w = refl

-- What stands for a word that was found; and if none was found, none is in the word.
mask-IsFree : (f p : List ℕ) (fs : List (List ℕ)) → IsWord f → IsFree f (mask p fs).0
unfolding mask
mask-IsFree f p [] w = nil-IsFree f w
mask-IsFree f p (g ∷ fs) w = elim (Bool-cases (strstr p g)) [
  | inl e ↦ rw e (
      IsFree-space f (replicate (length g) b'x') (mask p fs).0 w (crosses-IsFree f (length g) w)
        (mask-IsFree f p fs w))
  | inr e ↦ rw e (mask-IsFree f p fs w)
]

mask-none : (f p : List ℕ) (fs : List (List ℕ)) → OneOf f fs → (mask p fs).1 ≡ false → IsFree f p
unfolding mask
mask-none f p [] o h = absurd o
mask-none f p (g ∷ fs) o h = elim (Bool-cases (strstr p g)) [
  | inl e ↦ absurd (let h' = rw e at h in cc)
  | inr e ↦ let h' : (mask p fs).1 ≡ false = rw e at h in rest o e h' (λ m. mask-none f p fs m h')
]
  where
    rest :
        OneOf f (g ∷ fs)
        → strstr p g ≡ false
        → (mask p fs).1 ≡ false
        → (OneOf f fs → IsFree f p)
        → IsFree f p
    rest (inl same) e h ih = ap (strstr p) same ∙ e
    rest (inr m) e h ih = ih m

-- Texts in pieces that end in a space: what `put_word` gives, with more of the kind behind it.
mask-append :
    (f p r : List ℕ) (fs : List (List ℕ)) → IsWord f → IsFree f r → IsFree f ((mask p fs).0 ++ r)
unfolding mask
mask-append f p r [] w h = h
mask-append f p r (g ∷ fs) w h = elim (Bool-cases (strstr p g)) [
  | inl e ↦ rw e (
      subst (IsFree f) (sym (append_assoc (replicate (length g) b'x') (32 ∷ (mask p fs).0) r)) (
        IsFree-space f (replicate (length g) b'x') ((mask p fs).0 ++ r) w
          (crosses-IsFree f (length g) w) (mask-append f p r fs w h)))
  | inr e ↦ rw e (mask-append f p r fs w h)
]

put_word-append : (f p r : List ℕ) → OneOf f filterwords → IsFree f r → IsFree f (put_word p ++ r)
unfolding put_word
put_word-append f p r o h = elim (Bool-cases (mask p filterwords).1) [
  | inl e ↦ rw e (mask-append f p r filterwords (filterwords-IsWord f o) h)
  | inr e ↦ rw e (
      subst (IsFree f) (sym (append_assoc p (32 ∷ []) r))
        (IsFree-space f p r (filterwords-IsWord f o) (mask-none f p filterwords o e) h))
]

put_words-append :
    (f : List ℕ) (ps : List (List ℕ)) (r : List ℕ)
    → OneOf f filterwords
    → IsFree f r
    → IsFree f (put_words ps ++ r)
unfolding put_words
put_words-append f [] r o h = h
put_words-append f (p ∷ ps) r o h =
    subst (IsFree f) (sym (append_assoc (put_word p) (put_words ps) r))
      (put_word-append f p (put_words ps ++ r) o (put_words-append f ps r o h))

filter_main-IsFree :
    (fuel : ℕ) (input : List ℕ)
    → length input < fuel
    → (out : List ℕ) × (filter_main fuel input ≡ ok out)
      × ((w : List ℕ) → OneOf w filterwords → IsFree w out)
unfolding filter_main output
filter_main-IsFree zero input h = absurd (omega arith)
filter_main-IsFree (suc fuel) [] h = ([], refl, λ w o. nil-IsFree w (filterwords-IsWord w o))
filter_main-IsFree (suc fuel) (c ∷ cs) h =
    let x = (line 254 (c ∷ cs)).0 in
    let rest = (line 254 (c ∷ cs)).1 in
    let shorter : length rest < fuel = omega (
      arith,
      ap length (line-split 254 (c ∷ cs)),
      length-append x rest,
      line-progress 254 c cs (omega arith),
    ) in
    let (out, e, free) = filter_main-IsFree fuel rest shorter in
    (
      put_words (tokens_from [] (c_string x)) ++ out,
      rw e refl,
      λ w o. put_words-append w (tokens_from [] (c_string x)) out o (free w o),
    )

-- Whatever stands on stdin, the filter comes to its end, and no filter word occurs in what it prints.
pub filter_main-clean :
    (input : List ℕ)
    → (out : List ℕ) × (filter_main (suc (length input)) input ≡ ok out)
      × ((w : List ℕ) → OneOf w filterwords → Occurs w out → ⊥)
filter_main-clean input =
    let (out, e, free) = filter_main-IsFree (suc (length input)) input (omega arith) in
    (out, e, λ w o occurs. let found = (strstr_iff out w).1 occurs in let gone = free w o in cc)
