-- ===== src/Printing/Gathered.antt =====
-- The text that the clients of the printer service gather.
use linux_unix_development.Common.{
  ℕ, zero, suc, ◌+◌, ◌-◌, ◌≤◌, ◌<◌, ◌≡◌, refl, sym, ap, ◌∙◌, ◌⊎◌, inl, inr, List, subst, [], ◌∷◌,
  ◌++◌, append_assoc, append-nil, length, length-append, ltb, ltb→lt, true, false, Bool-cases,
  Outcome, ok, arith,
}
use linux_unix_development.Common.Bytes.{NoNul, NoNul-append, NoNul-c_string, c_string}
use linux_unix_development.Common.Strings.{line, store, store-text}
use linux_unix_development.Common.Strings.Lines.{line-split, line-short, line-progress}
use linux_unix_development.Printing.{gather}

NoNul-left : (x y : List ℕ) → NoNul (x ++ y) → NoNul x
NoNul-left [] y h = tt
NoNul-left (c ∷ x) y h = (h.0, NoNul-left x y h.1)

NoNul-right : (x y : List ℕ) → NoNul (x ++ y) → NoNul y
NoNul-right [] y h = h
NoNul-right (c ∷ x) y h = NoNul-right x y h.1

-- `content` is `before` and what was gathered behind it from `input`: behind that stand a line `last`
-- that did not fit and the unread `rest`, or nothing.
pub record Gathers (size : ℕ) (before input content rest : List ℕ) : Type 0 where
  pub more : List ℕ
  pub last : List ℕ
  pub added : content ≡ before ++ more
  pub split : input ≡ more ++ (last ++ rest)
  pub short : length content < size
  pub full : ((last ≡ []) × (rest ≡ [])) ⊎ (size ≤ length content + length last)

Gathers-line :
    (size : ℕ) (before x input content rest : List ℕ)
    → Gathers size (before ++ x) input content rest
    → Gathers size before (x ++ input) content rest
Gathers-line size before x input content rest g = record {
  more = x ++ g.more;
  last = g.last;
  added = g.added ∙ append_assoc before x g.more;
  split = ap (λ l. x ++ l) g.split ∙ sym (append_assoc x g.more (g.last ++ rest));
  short = g.short;
  full = g.full;
}

-- The loop ends without a fault, and the array holds what it gathered.
pub record Gathered (size : ℕ) (before input : List ℕ) (o : Outcome (List ℕ × List ℕ))
    : Type 0 where
  pub array : List ℕ
  pub rest : List ℕ
  pub returns : o ≡ ok (array, rest)
  pub sized : length array ≡ size
  pub gathers : Gathers size before input (c_string array) rest

NoNul-c_string-append : (a x : List ℕ) → NoNul x → NoNul (c_string a ++ x)
NoNul-c_string-append a x h = NoNul-append (c_string a) x (NoNul-c_string a) h

module _ (size : ℕ) (inhalt x : List ℕ) where
  -- The line does not fit, and the loop ends.
  full-Gathered :
      (input rest : List ℕ)
      → length inhalt ≡ size
      → length (c_string inhalt) < size
      → input ≡ x ++ rest
      → ltb (length (c_string inhalt) + length x) size ≡ false
      → Gathered size (c_string inhalt) input (ok (inhalt, rest))
  full-Gathered input rest a l split e = record {
    array = inhalt;
    rest = rest;
    returns = refl;
    sized = a;
    gathers = record {
      more = [];
      last = x;
      added = sym (append-nil (c_string inhalt));
      split = split;
      short = l;
      full = inr (ground arith);
    };
  }

  -- The array after the line was added.
  added :
      NoNul x
      → length inhalt ≡ size
      → ltb (length (c_string inhalt) + length x) size ≡ true
      → (i : List ℕ) × (store inhalt (c_string inhalt ++ x) ≡ ok i)
        × (c_string i ≡ c_string inhalt ++ x)
        × (length i ≡ length inhalt)
  added n a e = store-text inhalt (c_string inhalt ++ x) (NoNul-c_string-append inhalt x n) (
      omega (
        arith,
        a,
        ltb→lt (length (c_string inhalt) + length x) size e,
        length-append (c_string inhalt) x,
      ))

  -- The loop goes on behind the line, with the array `i`.
  more-Gathered :
      (input rest i : List ℕ) (o : Outcome (List ℕ × List ℕ))
      → input ≡ x ++ rest
      → c_string i ≡ c_string inhalt ++ x
      → Gathered size (c_string i) rest o
      → Gathered size (c_string inhalt) input o
  more-Gathered input rest i o split ti g = record {
    array = g.array;
    rest = g.rest;
    returns = g.returns;
    sized = g.sized;
    gathers =
        subst (λ y. Gathers size (c_string inhalt) y (c_string g.array) g.rest) (sym split)
          (Gathers-line size (c_string inhalt) x rest (c_string g.array) g.rest
            (subst (λ y. Gathers size y rest (c_string g.array) g.rest) ti g.gathers));
  }

pub gather-Gathered :
    (size room fuel : ℕ) (inhalt puffer input : List ℕ)
    → 1 < room
    → length inhalt ≡ size
    → room ≤ length puffer
    → length (c_string inhalt) < size
    → NoNul input
    → length input < fuel
    → Gathered size (c_string inhalt) input (gather size room fuel inhalt puffer input)
unfolding gather
gather-Gathered size room zero inhalt puffer input p a b l n f = absurd (omega arith)
gather-Gathered size room (suc fuel) inhalt puffer [] p a b l n f = record {
  array = inhalt;
  rest = [];
  returns = refl;
  sized = a;
  gathers = record {
    more = [];
    last = [];
    added = sym (append-nil (c_string inhalt));
    split = refl;
    short = l;
    full = inl (refl, refl);
  };
}
gather-Gathered size room (suc fuel) inhalt puffer (c ∷ cs) p a b l n f =
    let x = (line (room - 1) (c ∷ cs)).0 in
    let rest = (line (room - 1) (c ∷ cs)).1 in
    let split = line-split (room - 1) (c ∷ cs) in
    let clean = subst NoNul split n in
    let (q, eq, text, sq) =
      store-text puffer x (NoNul-left x rest clean)
        (omega (arith, line-short (room - 1) (c ∷ cs))) in
    elim (Bool-cases (ltb (length (c_string inhalt) + length x) size)) [
      | inr e ↦ rw (eq, text, e) (full-Gathered size inhalt x (c ∷ cs) rest a l split e)
      | inl e ↦
          let (i, ei, ti, si) = added size inhalt x (NoNul-left x rest clean) a e in
          rw (eq, text, e, ei)
            (more-Gathered size inhalt x (c ∷ cs) rest i _ split ti (
              gather-Gathered size room fuel i q rest p (si ∙ a) (omega (arith, sq))
                (rw ti (
                  omega (
                    arith,
                    ltb→lt (length (c_string inhalt) + length x) size e,
                    length-append (c_string inhalt) x,
                  )))
                (NoNul-right x rest clean)
                (omega (
                  arith,
                  ap length split,
                  length-append x rest,
                  line-progress (room - 1) c cs (omega arith),
                ))))
    ]
