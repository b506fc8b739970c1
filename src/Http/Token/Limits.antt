-- ===== src/Http/Token/Limits.antt =====
-- GetToken beyond its limits: too few words in the buffer, and a `toklen` that is larger than the
-- array.
use linux_unix_development.Common.{
  ℕ, zero, suc, ◌+◌, ◌≤◌, ◌<◌, ◌≡◌, ◌≢◌, refl, inl, inr, ap, ◌∙◌, sym, true, none, some, List, [],
  ◌∷◌, ◌++◌, ltb, lt→ltb, not-lt→ltb, length, length-append, set, length-set, get_elem?, arith,
  Bool-cases, read_out_of_bounds, write_out_of_bounds, fault, ◌>>=◌, >>=_assoc, ltb→lt, Fault,
}
use linux_unix_development.Http.Token.{is_token, skip, scan, resume, rounds, get_token}
use linux_unix_development.Http.Token.Split.{words_from, words}
use linux_unix_development.Http.Token.Bounds.{scan-more}
use linux_unix_development.Http.Token.Words.{is_delimiter-not, is_closed, skip-words, round-Stored}
use linux_unix_development.Http.Token.Rounds.{Short, rounds-step}

-- A text that ends with a delimiter finishes the word that it begins with.
closed-words :
    (delim a : ℕ) (bs : List ℕ) (c : ℕ) (cs : List ℕ)
    → is_token delim c ≡ true
    → is_closed delim (c ∷ cs) ≡ true
    → words_from delim (a ∷ bs) cs ≢ []
unfolding words_from
closed-words delim a bs c [] t h e =
    absurd
      (elim (Bool-cases (is_token delim c)) [ inl u ↦ cc (is_delimiter-not delim c) | inr u ↦ cc ])
closed-words delim a bs c (d ∷ ds) t h e = elim (Bool-cases (is_token delim d)) [
  | inl u ↦ closed-words delim a (bs ++ (d ∷ [])) d ds u h (rw u at e)
  | inr u ↦ cc (let e' : (a ∷ bs) ∷ words_from delim [] ds ≡ [] = rw u at e in e')
]

-- A fault of the skipping loop, or of the copying loop after it, ends the call.
rounds-fault :
    (delim toklen n len : ℕ) (token buf : List ℕ) (f : Fault)
    → 0 < length token
    → (skip delim buf >>= scan delim toklen 0 (set token 0 0)) ≡ fault f
    → rounds delim toklen (suc n) len token buf ≡ fault f
unfolding rounds
rounds-fault delim toklen n len token buf f p e =
    let next = λ (l' : ℕ) (t' rest' : List ℕ). rounds delim toklen n l' t' rest' in
    rw (lt→ltb 0 (length token) p) (
      >>=_assoc (skip delim buf) (scan delim toklen 0 (set token 0 0)) (resume next)
      ∙ ap (λ r. r >>= resume next) e)

module _ (delim toklen size : ℕ) (k : toklen ≤ size) (p : 0 < size) where
  rounds-exhausted :
      (buf : List ℕ) (n len : ℕ) (token : List ℕ) (ws : List (List ℕ))
      → length token ≡ size
      → words_from delim [] buf ≡ ws
      → is_closed delim buf ≡ true
      → Short toklen (suc n) ws
      → get_elem? ws n ≡ none
      → rounds delim toklen (suc n) len token buf ≡ fault read_out_of_bounds
  rounds-exhausted buf n len token [] s e z h g =
      rounds-fault delim toklen n len token buf read_out_of_bounds (omega arith)
        (elim (skip-words delim buf) [
          | inl (f, u) ↦ rw f
          | inr (c, cs, f, t, u, y) ↦
              absurd
                (closed-words delim c [] c cs t (y z) (unfold words_from in rw t at (sym u ∙ e)))
        ])
  rounds-exhausted buf zero len token (v ∷ ws) s e z h g = absurd (cc)
  rounds-exhausted buf (suc n) len token (v ∷ ws) s e z h g =
      let (t, rest, eq, st) =
        round-Stored delim toklen size buf (set token 0 0) v ws h.0 (omega arith)
          (length-set token 0 0 ∙ s) e in
      rounds-step delim toklen (suc n) len (length v) token buf t rest (omega arith) eq
      ∙ rounds-exhausted rest n (length v) t ws st.room st.others (st.ends z) h.1 g

-- If every word of the buffer is finished and at most `n` words are there, each shorter than
-- `toklen`, then `GetToken` with n + 1 reads past the end of the buffer: it takes a NUL for one
-- more delimiter to skip.
pub get_token-exhausted :
    (buf token : List ℕ) (n toklen delim : ℕ)
    → 0 < length token
    → toklen ≤ length token
    → is_closed delim buf ≡ true
    → Short toklen (suc n) (words delim buf)
    → get_elem? (words delim buf) n ≡ none
    → get_token buf (suc n) token toklen delim ≡ fault read_out_of_bounds
unfolding get_token words
get_token-exhausted buf token n toklen delim p k z h g =
    rounds-exhausted delim toklen (length token) k p buf n 0 token (words_from delim [] buf) refl
      refl z h g

-- The copying loop at the end of the array.
scan-full :
    (delim toklen len : ℕ) (token : List ℕ) (c : ℕ) (cs : List ℕ)
    → length token ≤ len
    → scan delim toklen len token (c ∷ cs) ≡ fault write_out_of_bounds
unfolding scan
scan-full delim toklen len token c cs h = elim (Bool-cases (is_token delim c)) [
  | inl t ↦ rw (t, not-lt→ltb len (length token) h)
  | inr t ↦ rw (t, not-lt→ltb len (length token) h)
]

module _ (delim toklen size : ℕ) (k : size < toklen) where
  scan-overflow :
      (a : ℕ) (bs buf : List ℕ) (len : ℕ) (token w : List ℕ) (ws : List (List ℕ))
      → size ≤ length w
      → length token ≡ size
      → len ≡ length (a ∷ bs)
      → words_from delim (a ∷ bs) buf ≡ w ∷ ws
      → scan delim toklen len token buf ≡ fault write_out_of_bounds
  unfolding words_from
  scan-overflow a bs [] len token w ws l s n e = absurd (cc)
  scan-overflow a bs (c ∷ cs) len token w ws l s n e = elim (Bool-cases (ltb len (length token))) [
    | inr full ↦ scan-full delim toklen len token c cs (ground arith)
    | inl room ↦
        let room' = ltb→lt len (length token) room in
        elim (Bool-cases (is_token delim c)) [
          | inl t ↦
              scan-more delim toklen len token c cs room' t (omega arith)
              ∙ scan-overflow a (bs ++ (c ∷ [])) cs (len + 1) (set token len c) w ws l
                  (length-set token len c ∙ s) (omega (arith, length-append {0} bs (c ∷ [])))
                  (rw t at e)
          | inr t ↦
              let e' : (a ∷ bs) ∷ words_from delim [] cs ≡ w ∷ ws = rw t at e in
              let w' : a ∷ bs ≡ w = cc in absurd (omega (arith, ap length w'))
        ]
  ]

  first-overflow :
      (c : ℕ) (cs token w : List ℕ) (ws : List (List ℕ))
      → size ≤ length w
      → length token ≡ size
      → is_token delim c ≡ true
      → words_from delim [] (c ∷ cs) ≡ w ∷ ws
      → scan delim toklen 0 token (c ∷ cs) ≡ fault write_out_of_bounds
  unfolding words_from
  first-overflow c cs [] w ws l s t e = scan-full delim toklen 0 [] c cs (omega arith)
  first-overflow c cs (x ∷ token) w ws l s t e =
      scan-more delim toklen 0 (x ∷ token) c cs (omega arith) t (omega arith)
      ∙ scan-overflow c [] cs 1 (c ∷ token) w ws l s refl (rw t at e)

  rounds-overflow :
      (buf : List ℕ) (n len : ℕ) (token : List ℕ) (ws : List (List ℕ)) (w : List ℕ)
      → 0 < size
      → length token ≡ size
      → words_from delim [] buf ≡ ws
      → Short size n ws
      → get_elem? ws n ≡ some w
      → size ≤ length w
      → rounds delim toklen (suc n) len token buf ≡ fault write_out_of_bounds
  rounds-overflow buf n len token [] w p s e h g l = absurd (cc)
  rounds-overflow buf zero len token (v ∷ ws) w p s e h g l =
      let v' : v ≡ w = cc in
      rounds-fault delim toklen 0 len token buf write_out_of_bounds (omega arith)
        (elim (skip-words delim buf) [
          | inl (f, u) ↦ absurd (cc)
          | inr (c, cs, f, t, u, y) ↦ rw f (
              first-overflow c cs (set token 0 0) v ws (omega (arith, ap length v'))
                (length-set token 0 0 ∙ s) t (sym u ∙ e))
        ])
  rounds-overflow buf (suc n) len token (v ∷ ws) w p s e h g l =
      let (t, rest, eq, st) =
        round-Stored delim toklen size buf (set token 0 0) v ws (omega arith) h.0
          (length-set token 0 0 ∙ s) e in
      rounds-step delim toklen (suc n) len (length v) token buf t rest (omega arith) eq
      ∙ rounds-overflow rest n (length v) t ws w p st.room st.others h.1 g l

-- If `toklen` is larger than the array `token`, the words before word `n` fit into the array, and
-- word `n` does not, then `GetToken` with n + 1 writes past the end of `token`.
pub get_token-overflow :
    (buf token : List ℕ) (n toklen delim : ℕ) (w : List ℕ)
    → 0 < length token
    → length token < toklen
    → Short (length token) n (words delim buf)
    → get_elem? (words delim buf) n ≡ some w
    → length token ≤ length w
    → get_token buf (suc n) token toklen delim ≡ fault write_out_of_bounds
unfolding get_token words
get_token-overflow buf token n toklen delim w p k h g l =
    rounds-overflow delim toklen (length token) k buf n 0 token (words_from delim [] buf) w p refl
      refl h g l
