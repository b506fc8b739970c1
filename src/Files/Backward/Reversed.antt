-- ===== src/Files/Backward/Reversed.antt =====
-- What bwread prints: the file from its end, with the newline that comes first moved to the end.
use linux_unix_development.Common.{
  ℕ, suc, ◌<◌, ◌≡◌, refl, ap, ap₂, ◌∙◌, sym, inl, inr, Bool, true, false, some, List, [], ◌∷◌, ◌++◌,
  ◌==◌, Bool-cases, if◌then◌else◌, length, length-append, append-nil, append_assoc, get_elem?,
  arith,
}
use mathlib.Core.List.{reverse, reverse-cons, reverse-reverse}
use linux_unix_development.Files.Backward.{
  round, one, Done, no_message, read_at, put_byte, loop, start, bwread,
}

-- A text without its first newline.
abbrev pub drop_newline : List ℕ → List ℕ
drop_newline [] = []
drop_newline (c ∷ cs) = if c == 10 then cs else c ∷ drop_newline cs

abbrev pub has_newline : List ℕ → Bool
has_newline [] = false
has_newline (c ∷ cs) = if c == 10 then true else has_newline cs

-- What the loop makes of a text that is read from the end.
abbrev rest_text : Bool → List ℕ → List ℕ
rest_text true cs = cs
rest_text false cs = drop_newline cs

abbrev rest_nl : Bool → List ℕ → Bool
rest_nl true cs = true
rest_nl false cs = has_newline cs

get_elem?-last : (x : List ℕ) (c : ℕ) (y : List ℕ) → get_elem? (x ++ (c ∷ y)) (length x) ≡ some c
get_elem?-last [] c y = refl
get_elem?-last (a ∷ x) c y = get_elem?-last x c y

-- A text, and a newline behind it if there is one.
abbrev pub ended : Bool → List ℕ → List ℕ
ended b text = if b then text ++ (10 ∷ []) else text

-- What the loop leaves when no read fails.
abbrev finished : Bool → List ℕ → Done
finished nl text = record { rv = one; nl = nl; text = text }

rest_nl-nil : (b : Bool) → rest_nl b [] ≡ b
rest_nl-nil true = refl
rest_nl-nil false = refl

rest_text-nil : (b : Bool) → rest_text b [] ≡ []
rest_text-nil true = refl
rest_text-nil false = refl

length-reverse : (r : List ℕ) → length (reverse r) ≡ length r
length-reverse [] = refl
length-reverse (c ∷ r) =
    omega
      (arith, ap length (reverse-cons c r), length-append (reverse r) (c ∷ []), length-reverse r)

module _ (fails : ℕ → Bool) (works : (p : ℕ) → fails p ≡ false) where
  read_at-last : (r y : List ℕ) (c : ℕ) → read_at (reverse r ++ (c ∷ y)) fails (length r) ≡ (one, c)
  unfolding read_at
  read_at-last r y c = rw (works (length r), ← length-reverse r, get_elem?-last (reverse r) c y)

  put_byte-rest :
      (content : List ℕ) (nl : Bool) (c : ℕ) (r : List ℕ)
      → (rest_nl (put_byte content fails nl c).0 r ≡ rest_nl nl (c ∷ r))
        × ((put_byte content fails nl c).1 ++ rest_text (put_byte content fails nl c).0 r
            ≡ rest_text nl (c ∷ r))
  unfolding put_byte
  put_byte-rest content true c r = elim (Bool-cases (c == 10)) [
    | inl e ↦ (rw e, rw e)
    | inr e ↦ (rw e, rw e)
  ]
  put_byte-rest content false c r = elim (Bool-cases (c == 10)) [
    | inl e ↦ (rw e, rw e)
    | inr e ↦ (rw e, rw e)
  ]

  loop-reversed :
      (content r y : List ℕ) (c : ℕ) (nl : Bool) (text : List ℕ)
      → content ≡ reverse r ++ (c ∷ y)
      → loop content fails (length r) nl text
        ≡ finished (rest_nl nl (c ∷ r)) (text ++ rest_text nl (c ∷ r))
  unfolding loop round
  loop-reversed content [] y c nl text e =
      let (p, q) = put_byte-rest content nl c [] in
      let v : read_at content fails 0 ≡ (one, c) = rw e (read_at-last [] y c) in
      rw v (
        ap₂ finished (sym (rest_nl-nil (put_byte content fails nl c).0) ∙ p) (
          ap (λ t. text ++ t)
            (sym (append-nil (put_byte content fails nl c).1)
              ∙ ap (λ t. (put_byte content fails nl c).1 ++ t)
                  (sym (rest_text-nil (put_byte content fails nl c).0))
              ∙ q)))
  loop-reversed content (d ∷ r) y c nl text e =
      let (p, q) = put_byte-rest content nl c (d ∷ r) in
      let v : read_at content fails (suc (length r)) ≡ (one, c) = rw e (read_at-last (d ∷ r) y c) in
      let move : content ≡ reverse r ++ (d ∷ c ∷ y) =
        e ∙ ap (λ t. t ++ (c ∷ y)) (reverse-cons d r) ∙ append_assoc (reverse r) (d ∷ []) (c ∷ y) in
      rw v (
        loop-reversed content r (c ∷ y) d (put_byte content fails nl c).0
          (text ++ (put_byte content fails nl c).1) move
        ∙ ap₂ finished p (
            append_assoc text (put_byte content fails nl c).1
              (rest_text (put_byte content fails nl c).0 (d ∷ r))
            ∙ ap (λ t. text ++ t) q))

  bwread-snoc :
      (content r : List ℕ) (c : ℕ)
      → content ≡ reverse r ++ (c ∷ [])
      → bwread content fails ≡ (ended (has_newline (c ∷ r)) (drop_newline (c ∷ r)), no_message)
  unfolding bwread start
  bwread-snoc content r c e =
      let n : length content ≡ suc (length r) =
        omega (arith, ap length e, length-append (reverse r) (c ∷ []), length-reverse r) in
      rw (n, loop-reversed content r [] c false [] e)

  -- On a file that is not empty and that can be read, bwread prints its bytes from the last to the
  -- first, except that the newline that comes first that way is moved to the end, and no message.
  pub bwread-reverse :
      (content : List ℕ)
      → 0 < length content
      → let text = reverse content in
        bwread content fails ≡ (ended (has_newline text) (drop_newline text), no_message)
  bwread-reverse content h = from (reverse content) refl
    where
      from :
          (t : List ℕ)
          → t ≡ reverse content
          → bwread content fails ≡ (ended (has_newline t) (drop_newline t), no_message)
      from [] e = absurd (omega (arith, ap length e, length-reverse content))
      from (c ∷ r) e =
          bwread-snoc content r c
            (sym (reverse-reverse content) ∙ ap reverse (sym e) ∙ reverse-cons c r)
