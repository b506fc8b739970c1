-- ===== src/Http/Token/Bounds.antt =====
-- GetToken writes inside the array that it is given, as long as `toklen` is at most its size.
use linux_unix_development.Common.{
  Ends, Ends-bind, ℕ, zero, suc, ◌+◌, ◌-◌, ◌≤◌, ◌<◌, ◌≡◌, ◌⊎◌, refl, inl, inr, ◌∙◌, true, false,
  List, [], ◌∷◌, ltb, lt→ltb, not-lt→ltb, length, set, length-set, arith, Bool-cases,
  read_out_of_bounds, Outcome, ok, fault, exit, out_of_fuel, ◌>>=◌,
}
use linux_unix_development.Http.Token.{
  is_delimiter, is_token, skip, Got, Round, too_long, word, scan, resume, rounds, get_token,
}

-- One step of the second inner loop, on its three ways.
module _ (delim toklen len : ℕ) (token : List ℕ) (c : ℕ) (cs : List ℕ)
    (room : len < length token) where
  pub scan-more :
      is_token delim c ≡ true
      → len + 1 < toklen
      → scan delim toklen len token (c ∷ cs) ≡ scan delim toklen (len + 1) (set token len c) cs
  unfolding scan
  scan-more t h = rw (t, lt→ltb _ _ room, not-lt→ltb (toklen - 1) (len + 1) (omega arith))

  pub scan-too_long :
      is_token delim c ≡ true
      → toklen ≤ len + 1
      → scan delim toklen len token (c ∷ cs) ≡ ok (too_long (set token len c))
  unfolding scan
  scan-too_long t h = rw (t, lt→ltb _ _ room, lt→ltb (toklen - 1) (len + 1) (omega arith))

  pub scan-word :
      is_token delim c ≡ false
      → scan delim toklen len token (c ∷ cs) ≡ ok (word len (set token len 0) (c ∷ cs))
  unfolding scan
  scan-word t = rw (t, lt→ltb _ _ room)

-- A run that keeps the size `n` of the array, or stops at a read past the end of the buffer.
abbrev ScanSafe : ℕ → Outcome Round → Type 0
ScanSafe n (ok (too_long t)) = length t ≡ n
ScanSafe n (ok (word l t r)) = (length t ≡ n) × (l < n)
ScanSafe n (fault e) = e ≡ read_out_of_bounds
ScanSafe n (exit c) = ⊥
ScanSafe n out_of_fuel = ⊥

abbrev pub TokenSafe : ℕ → Outcome Got → Type 0
TokenSafe n (ok g) = length g.token ≡ n
TokenSafe n (fault e) = e ≡ read_out_of_bounds
TokenSafe n (exit c) = ⊥
TokenSafe n out_of_fuel = ⊥

scan-ScanSafe :
    (delim toklen size len : ℕ) (buf token : List ℕ)
    → len < toklen
    → toklen ≤ size
    → length token ≡ size
    → ScanSafe size (scan delim toklen len token buf)
scan-ScanSafe delim toklen size len [] token h k e = unfold scan in refl
scan-ScanSafe delim toklen size len (c ∷ cs) token h k e =
    let room : len < length token = omega arith in
    elim (Bool-cases (is_token delim c)) [
      | inl t ↦ elim (Bool-cases (ltb (len + 1) toklen)) [
        | inl more ↦ rw (scan-more delim toklen len token c cs room t (ground arith)) (
            scan-ScanSafe delim toklen size (len + 1) cs (set token len c) (ground arith) k
              (length-set token len c ∙ e))
        | inr last ↦
            rw (scan-too_long delim toklen len token c cs room t (ground arith))
              (length-set token len c ∙ e)
      ]
      | inr t ↦
          rw (scan-word delim toklen len token c cs room t)
            (length-set token len 0 ∙ e, omega arith)
    ]

skip_cases :
    (delim : ℕ) (buf : List ℕ)
    → (skip delim buf ≡ fault read_out_of_bounds) ⊎ ((at : List ℕ) × (skip delim buf ≡ ok at))
unfolding skip
skip_cases delim [] = inl refl
skip_cases delim (c ∷ cs) = elim (Bool-cases (is_delimiter delim c)) [
  | inl d ↦ rw d (skip_cases delim cs)
  | inr d ↦ inr (c ∷ cs, rw d)
]

resume-TokenSafe :
    (size : ℕ) (next : ℕ → List ℕ → List ℕ → Outcome Got) (r : Outcome Round)
    → ScanSafe size r
    → ((l : ℕ) (t rest : List ℕ) → length t ≡ size → TokenSafe size (next l t rest))
    → TokenSafe size (r >>= resume next)
resume-TokenSafe size next (ok (too_long t)) s h = s
resume-TokenSafe size next (ok (word l t rest)) s h = h l t rest s.0
resume-TokenSafe size next (fault e) s h = s
resume-TokenSafe size next (exit c) s h = s
resume-TokenSafe size next out_of_fuel s h = s

rounds-TokenSafe :
    (delim toklen size n len : ℕ) (token buf : List ℕ)
    → 0 < toklen
    → toklen ≤ size
    → length token ≡ size
    → TokenSafe size (rounds delim toklen n len token buf)
unfolding rounds
rounds-TokenSafe delim toklen size zero len token buf p k e = e
rounds-TokenSafe delim toklen size (suc n) len token buf p k e =
    rw (lt→ltb 0 (length token) (omega arith)) (elim (skip_cases delim buf) [
      | inl f ↦ rw f
      | inr (at, f) ↦ rw f (
          resume-TokenSafe size _ _
            (scan-ScanSafe delim toklen size 0 at (set token 0 0) p k (length-set token 0 0 ∙ e))
            λ l t rest h. rounds-TokenSafe delim toklen size n l t rest p k h)
    ])

-- If `toklen` is positive and at most the size of `token`, GetToken on any buffer writes nowhere
-- outside `token` and keeps its size: it returns, or reads past the end of the buffer.
pub get_token-TokenSafe :
    (buf token : List ℕ) (n toklen delim : ℕ)
    → 0 < toklen
    → toklen ≤ length token
    → TokenSafe (length token) (get_token buf n token toklen delim)
unfolding get_token
get_token-TokenSafe buf token n toklen delim p k =
    rounds-TokenSafe delim toklen (length token) n 0 token buf p k refl

scan-Ends :
    (delim toklen len : ℕ) (buf token : List ℕ)
    → Ends (λ r. Unit {0}) (scan delim toklen len token buf)
unfolding scan
scan-Ends delim toklen len [] token = tt
scan-Ends delim toklen len (c ∷ cs) token = elim (Bool-cases (ltb len (length token))) [
  | inl room ↦ elim (Bool-cases (is_token delim c)) [
    | inl t ↦ elim (Bool-cases (ltb (toklen - 1) (len + 1))) [
      | inl l ↦ rw (room, t, l) tt
      | inr l ↦ rw (room, t, l) (scan-Ends delim toklen (len + 1) cs (set token len c))
    ]
    | inr t ↦ rw (room, t) tt
  ]
  | inr full ↦ elim (Bool-cases (is_token delim c)) [
    | inl t ↦ rw (full, t) tt
    | inr t ↦ rw (full, t) tt
  ]
]

resume-Ends :
    (next : ℕ → List ℕ → List ℕ → Outcome Got) (r : Round)
    → ((l : ℕ) (t rest : List ℕ) → Ends (λ g. Unit {0}) (next l t rest))
    → Ends (λ g. Unit {0}) (resume next r)
resume-Ends next (too_long t) h = tt
resume-Ends next (word l t rest) h = h l t rest

rounds-Ends :
    (delim toklen n len : ℕ) (token buf : List ℕ)
    → Ends (λ g. Unit {0}) (rounds delim toklen n len token buf)
unfolding rounds
rounds-Ends delim toklen zero len token buf = tt
rounds-Ends delim toklen (suc n) len token buf = elim (Bool-cases (ltb 0 (length token))) [
  | inr e ↦ rw e tt
  | inl e ↦ rw e (elim (skip_cases delim buf) [
    | inl f ↦ rw f tt
    | inr (at, f) ↦ rw f (
        Ends-bind (λ r. Unit {0}) (λ g. Unit {0}) (scan delim toklen 0 (set token 0 0) at) _
          (scan-Ends delim toklen 0 at (set token 0 0))
          λ r _. resume-Ends _ r λ l t rest. rounds-Ends delim toklen n l t rest)
  ])
]

-- GetToken ends on any arguments: it returns or faults.
pub get_token-Ends_any :
    (buf token : List ℕ) (n toklen delim : ℕ)
    → Ends (λ g. Unit {0}) (get_token buf n token toklen delim)
unfolding get_token
get_token-Ends_any buf token n toklen delim = rounds-Ends delim toklen n 0 token buf
