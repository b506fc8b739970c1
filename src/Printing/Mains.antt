-- ===== src/Printing/Mains.antt =====
-- The main functions of printme.c and sender.c.
use linux_unix_development.Common.{
  ℕ, zero, suc, ◌-◌, ◌≤◌, ◌<◌, ◌≡◌, refl, sym, ap, ◌∙◌, subst, inl, inr, true, List, [], ◌∷◌, ◌++◌,
  length, length-set, set, lt→ltb, ◌==◌, Bool-cases, ok, arith,
}
use linux_unix_development.Common.Bytes.{NoNul, c_string}
use linux_unix_development.Printing.{gather, put_at, printme_main, sender_main}
use linux_unix_development.Printing.Gathered.{Gathers, gather-Gathered}

-- A NUL behind the string of an array does not change it.
pub c_string-set :
    (a : List ℕ) (i : ℕ) → length (c_string a) ≤ i → c_string (set a i 0) ≡ c_string a
c_string-set [] i h = refl
c_string-set (c ∷ a) zero h = ground arith
c_string-set (c ∷ a) (suc i) h = elim (Bool-cases (c == 0)) [
  | inl z ↦ rw z refl
  | inr z ↦ rw z (ap (λ l. c ∷ l) (c_string-set a i (ground arith)))
]

pub put_at-fits : (a : List ℕ) (i v : ℕ) → i < length a → put_at a i v ≡ ok (set a i v)
put_at-fits a i v h = rw (lt→ltb i (length a) h) refl

c_string-empty : (a : List ℕ) → 0 < length a → c_string (set a 0 0) ≡ []
c_string-empty [] h = refl
c_string-empty (c ∷ a) h = refl

-- What is gathered in an empty array, with the last NUL.
pub record Text (size room : ℕ) (inhalt puffer input : List ℕ) : Type 0 where
  pub array : List ℕ
  pub rest : List ℕ
  pub returns :
      gather size room (suc (length input)) (set inhalt 0 0) puffer input ≡ ok (array, rest)
  pub ended : put_at array (size - 1) 0 ≡ ok (set array (size - 1) 0)
  pub gathers : Gathers size [] input (c_string (set array (size - 1) 0)) rest

pub gather-Text :
    (size room : ℕ) (inhalt puffer input : List ℕ)
    → 0 < size
    → 1 < room
    → length inhalt ≡ size
    → room ≤ length puffer
    → NoNul input
    → Text size room inhalt puffer input
gather-Text size room inhalt puffer input z p a b n =
    let none = c_string-empty inhalt (omega (arith, a)) in
    let g =
      gather-Gathered size room (suc (length input)) (set inhalt 0 0) puffer input p
        (length-set inhalt 0 0 ∙ a) b (rw none (omega arith)) n (omega arith) in
    let same = c_string-set g.array (size - 1) (omega (arith, g.gathers.short)) in
    record {
      array = g.array;
      rest = g.rest;
      returns = g.returns;
      ended = put_at-fits g.array (size - 1) 0 (omega (arith, g.sized));
      gathers =
          subst (λ t. Gathers size [] input t g.rest) (sym same)
            (subst (λ y. Gathers size y input (c_string g.array) g.rest) none g.gathers);
    }

-- If popen works and no NUL is typed, printme prints, whatever its arrays hold at the start, the
-- beginning of what is typed; behind it stand a line that would have made 8192 bytes or more of the
-- text and what was not read, or nothing.
pub printme_main-Gathers :
    (inhalt puffer input : List ℕ)
    → length inhalt ≡ 8192
    → length puffer ≡ 8192
    → NoNul input
    → (text : List ℕ) × (rest : List ℕ) × (printme_main true inhalt puffer input ≡ ok text)
      × Gathers 8192 [] input text rest
unfolding printme_main
printme_main-Gathers inhalt puffer input a b n =
    let t =
      gather-Text 8192 8192 inhalt puffer input (omega arith) (omega arith) a (omega (arith, b))
        n in
    (
      c_string (set t.array 8191 0),
      t.rest,
      rw (lt→ltb 0 (length inhalt) (omega (arith, a)), t.returns, t.ended) refl,
      t.gathers,
    )

-- The same for sender, with 4096 bytes, if the FIFO can be opened: the text is written with the NUL
-- behind it.
pub sender_main-Gathers :
    (inhalt puffer input : List ℕ)
    → length inhalt ≡ 4096
    → length puffer ≡ 4096
    → NoNul input
    → (text : List ℕ) × (rest : List ℕ) × (sender_main true inhalt puffer input
        ≡ ok (text ++ (0 ∷ [])))
      × Gathers 4096 [] input text rest
unfolding sender_main
sender_main-Gathers inhalt puffer input a b n =
    let t =
      gather-Text 4096 4096 inhalt puffer input (omega arith) (omega arith) a (omega (arith, b))
        n in
    (
      c_string (set t.array 4095 0),
      t.rest,
      rw (lt→ltb 0 (length inhalt) (omega (arith, a)), t.returns, t.ended) refl,
      t.gathers,
    )
