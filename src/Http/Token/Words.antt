-- ===== src/Http/Token/Words.antt =====
-- GetToken against the words of the buffer.
use linux_unix_development.Common.{
  ℕ, zero, suc, ◌+◌, ◌≤◌, ◌<◌, ◌≡◌, ◌⊎◌, refl, inl, inr, ap, ◌∙◌, sym, Bool, true, false, List, [],
  ◌∷◌, ◌++◌, not, length, length-append, set, length-set, arith, Bool-cases, ◌==◌,
  read_out_of_bounds, ok, fault, ◌>>=◌,
}
use linux_unix_development.Common.Bytes.{c_string}
use linux_unix_development.Http.Token.{is_delimiter, is_token, skip, word, scan}
use linux_unix_development.Http.Token.Split.{words_from}
use linux_unix_development.Http.Token.Bounds.{scan-more, scan-word}

-- The two loop tests are each other's negation.
pub is_delimiter-not : (delim c : ℕ) → is_delimiter delim c ≡ not (is_token delim c)
is_delimiter-not delim c = ground arith

-- No word is unfinished at the end of the text.
abbrev pub is_closed : ℕ → List ℕ → Bool
is_closed delim [] = true
is_closed delim (c ∷ []) = is_delimiter delim c
is_closed delim (c ∷ d ∷ cs) = is_closed delim (d ∷ cs)

pub is_closed-tail :
    (delim c : ℕ) (cs : List ℕ) → is_closed delim (c ∷ cs) ≡ true → is_closed delim cs ≡ true
is_closed-tail delim c [] h = refl
is_closed-tail delim c (d ∷ cs) h = h

-- Skipping delimiters loses no word.
pub skip-words :
    (delim : ℕ) (buf : List ℕ)
    → (skip delim buf ≡ fault read_out_of_bounds) × (words_from delim [] buf ≡ [])
      ⊎ ((c : ℕ) × (cs : List ℕ) × (skip delim buf ≡ ok (c ∷ cs))
          × (is_token delim c ≡ true)
          × (words_from delim [] buf ≡ words_from delim [] (c ∷ cs))
          × (is_closed delim buf ≡ true → is_closed delim (c ∷ cs) ≡ true))
unfolding skip words_from
skip-words delim [] = inl (refl, refl)
skip-words delim (c ∷ cs) = elim (Bool-cases (is_token delim c)) [
  | inl t ↦ inr (c, cs, rw (is_delimiter-not, t), t, refl, λ h. h)
  | inr t ↦ elim (skip-words delim cs) [
    | inl (f, n) ↦ inl (rw (is_delimiter-not, t) f, rw t n)
    | inr (d, ds, f, u, n, z) ↦
        inr (d, ds, rw (is_delimiter-not, t) f, u, rw t n, λ h. z (is_closed-tail delim c cs h))
  ]
]

-- Overwriting the terminator by `c` and terminating one place further appends `c`.
c_string-extend :
    (token : List ℕ) (len c : ℕ)
    → (c == 0) ≡ false
    → len + 1 < length token
    → length (c_string (set token len 0)) ≡ len
    → c_string (set (set token len c) (len + 1) 0) ≡ c_string (set token len 0) ++ (c ∷ [])
c_string-extend [] len c z h e = absurd (omega arith)
c_string-extend (x ∷ []) len c z h e = absurd (omega arith)
c_string-extend (x ∷ y ∷ r) zero c z h e = ground arith
c_string-extend (x ∷ y ∷ r) (suc len) c z h e = ground (arith, c_string-extend (y ∷ r) len c)

-- A word is at least as long as what has been read of it.
pub length-words :
    (delim a : ℕ) (bs buf w : List ℕ) (ws : List (List ℕ))
    → words_from delim (a ∷ bs) buf ≡ w ∷ ws
    → length (a ∷ bs) ≤ length w
unfolding words_from
length-words delim a bs [] w ws e = cc
length-words delim a bs (c ∷ cs) w ws e = elim (Bool-cases (is_token delim c)) [
  | inl t ↦ omega (
    arith,
    length-words delim a (bs ++ (c ∷ [])) cs w ws (rw t at e),
    length-append {0} bs (c ∷ []),
  )
  | inr t ↦ ground arith
]

-- A round that has read `a ∷ bs` of the word `w` stores `w` and stops behind it.
pub record Stored (delim size : ℕ) (buf w : List ℕ) (ws : List (List ℕ)) (token rest : List ℕ)
    : Type 0 where
  pub text : c_string token ≡ w
  pub room : length token ≡ size
  pub others : words_from delim [] rest ≡ ws
  pub ends : is_closed delim buf ≡ true → is_closed delim rest ≡ true

Stored-widen :
    {delim size : ℕ} {buf buf' w : List ℕ} {ws : List (List ℕ)} {token rest : List ℕ}
    → (is_closed delim buf ≡ true → is_closed delim buf' ≡ true)
    → Stored delim size buf' w ws token rest
    → Stored delim size buf w ws token rest
Stored-widen f st = record {
  text = st.text;
  room = st.room;
  others = st.others;
  ends = λ h. st.ends (f h);
}

token-ne-zero : (delim c : ℕ) → is_token delim c ≡ true → (c == 0) ≡ false
token-ne-zero delim c t = ground arith

scan-Stored :
    (delim toklen size a : ℕ) (bs buf : List ℕ) (len : ℕ) (token w : List ℕ) (ws : List (List ℕ))
    → length w < toklen
    → length w < size
    → length token ≡ size
    → len ≡ length (a ∷ bs)
    → c_string (set token len 0) ≡ a ∷ bs
    → words_from delim (a ∷ bs) buf ≡ w ∷ ws
    → (t : List ℕ) × (rest : List ℕ) × (scan delim toklen len token buf
        ≡ ok (word (length w) t rest))
      × Stored delim size buf w ws t rest
unfolding words_from
scan-Stored delim toklen size a bs [] len token w ws l k s n acc e = absurd (cc)
scan-Stored delim toklen size a bs (c ∷ cs) len token w ws l k s n acc e =
    let short = length-words delim a bs (c ∷ cs) w ws e in
    let room : len < length token = omega arith in
    elim (Bool-cases (is_token delim c)) [
      | inl t ↦
          let longer = length-words delim a (bs ++ (c ∷ [])) cs w ws (rw t at e) in
          let n' : len + 1 ≡ length (a ∷ (bs ++ (c ∷ []))) =
            omega (arith, length-append {0} bs (c ∷ [])) in
          let acc' =
            c_string-extend token len c (token-ne-zero delim c t) (omega arith)
              (ap length acc ∙ sym n) in
          let (t', rest, eq, st) =
            scan-Stored delim toklen size a (bs ++ (c ∷ [])) cs (len + 1) (set token len c) w ws l k
              (length-set token len c ∙ s) n' (acc' ∙ ap (λ x. x ++ (c ∷ [])) acc) (rw t at e) in
          (
            t',
            rest,
            scan-more delim toklen len token c cs room t (omega arith) ∙ eq,
            Stored-widen (is_closed-tail delim c cs) st,
          )
      | inr t ↦
          let e' : (a ∷ bs) ∷ words_from delim [] cs ≡ w ∷ ws = rw t at e in
          let w' : a ∷ bs ≡ w = cc in
          (
            set token len 0,
            c ∷ cs,
            scan-word delim toklen len token c cs room t
                ∙ ap (λ m. ok (word m (set token len 0) (c ∷ cs))) (n ∙ ap length w'),
            record {
              text = acc ∙ w';
              room = length-set token len 0 ∙ s;
              others = rw t (cc);
              ends = λ h. h;
            },
          )
    ]

module _ (delim toklen size : ℕ) where
  -- A whole round, from the first byte of a word.
  first-Stored :
      (c : ℕ) (cs token w : List ℕ) (ws : List (List ℕ))
      → length w < toklen
      → length w < size
      → length token ≡ size
      → is_token delim c ≡ true
      → words_from delim [] (c ∷ cs) ≡ w ∷ ws
      → (t : List ℕ) × (rest : List ℕ) × (scan delim toklen 0 token (c ∷ cs)
          ≡ ok (word (length w) t rest))
        × Stored delim size (c ∷ cs) w ws t rest
  unfolding words_from
  first-Stored c cs [] w ws l k s t e = absurd (omega arith)
  first-Stored c cs (x ∷ token) w ws l k s t e =
      let e' : words_from delim (c ∷ []) cs ≡ w ∷ ws = rw t at e in
      let short = length-words delim c [] cs w ws e' in
      let (t', rest, eq, st) =
        scan-Stored delim toklen size c [] cs 1 (c ∷ token) w ws l k s refl
          (c_string-extend (x ∷ token) 0 c (token-ne-zero delim c t) (omega arith) refl) e' in
      (
        t',
        rest,
        scan-more delim toklen 0 (x ∷ token) c cs (omega arith) t (omega arith) ∙ eq,
        Stored-widen (is_closed-tail delim c cs) st,
      )

  pub round-Stored :
      (buf token w : List ℕ) (ws : List (List ℕ))
      → length w < toklen
      → length w < size
      → length token ≡ size
      → words_from delim [] buf ≡ w ∷ ws
      → (t : List ℕ) × (rest : List ℕ) × ((skip delim buf >>= scan delim toklen 0 token)
          ≡ ok (word (length w) t rest))
        × Stored delim size buf w ws t rest
  round-Stored buf token w ws l k s e = elim (skip-words delim buf) [
    | inl (f, n) ↦ absurd (cc)
    | inr (c, cs, f, t, n, z) ↦
        let (t', rest, eq, st) = first-Stored c cs token w ws l k s t (sym n ∙ e) in
        (t', rest, rw f eq, Stored-widen z st)
  ]
