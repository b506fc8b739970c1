-- ===== src/Printing/Requests.antt =====
-- A request of client.c, and the server's answer to it.
use linux_unix_development.Common.{
  ℕ, zero, suc, ◌≤◌, ◌<◌, ◌≡◌, refl, sym, ap, ◌∙◌, subst, inl, inr, Bool, true, some, List, [], ◌∷◌,
  ◌++◌, append_assoc, append-nil, length, length-append, length-set, set, drop, ◌==◌, Bool-cases,
  ok, arith,
}
use linux_unix_development.Common.Bytes.{codes, c_string, c_string-split, NoNul, NoNul-append}
use linux_unix_development.Common.Strings.{store-text}
use linux_unix_development.Common.Decimal.{print, AllDigits-print, NoNul-print, length-print-le}
use linux_unix_development.Printing.{
  request_of, fifo_of, Server, text_of, an_den_drucker, answer_name, handle, serve_round,
}
use linux_unix_development.Printing.Gathered.{Gathers, gather-Gathered}
use linux_unix_development.Printing.Mains.{c_string-set, put_at-fits}
use linux_unix_development.Printing.Answered.{answer_name-room}

drop-all : (x : List ℕ) (n : ℕ) → length x ≤ n → drop n x ≡ []
drop-all [] zero h = refl
drop-all [] (suc n) h = refl
drop-all (c ∷ x) zero h = absurd (omega arith)
drop-all (c ∷ x) (suc n) h = drop-all x n (omega arith)

-- printf finds the string of an array that has a NUL.
pub text_of-c_string : (a : List ℕ) → length (c_string a) < length a → text_of a ≡ ok (c_string a)
unfolding text_of
text_of-c_string [] h = absurd (omega arith)
text_of-c_string (c ∷ a) h = elim (Bool-cases (c == 0)) [
  | inl z ↦ rw z refl
  | inr z ↦ rw (z, text_of-c_string a (ground arith)) refl
]

-- The request of process `n`: the number, a newline, and what was gathered; the rest of the array is
-- written too.
pub record Request (n : ℕ) (inhalt puffer input : List ℕ) : Type 0 where
  pub bytes : List ℕ
  pub more : List ℕ
  pub rest : List ℕ
  pub sends : request_of n inhalt puffer input ≡ ok (fifo_of n, bytes)
  pub sized : length bytes ≡ 4096
  pub text : c_string bytes ≡ print n ++ (10 ∷ more)
  pub gathers : Gathers 4096 (print n ++ (10 ∷ [])) input (c_string bytes) rest

module _ (n : ℕ) (inhalt puffer input : List ℕ) (few : n < 10000) (a : length inhalt ≡ 4096)
    (b : length puffer ≡ 4096) (clean : NoNul input) where
  digits_few : length (print n) ≤ 4
  digits_few = length-print-le 3 n few

  pub request_of-Request : Request n inhalt puffer input
  unfolding request_of
  request_of-Request =
      let first = print n ++ (10 ∷ []) in
      let (name, e1, t1, s1) =
        store-text puffer (fifo_of n)
          (NoNul-append (codes "fifo.") (print n) (omega arith) (NoNul-print n))
          (omega (arith, digits_few, length-append (codes "fifo.") (print n), b)) in
      let (i, e2, t2, s2) =
        store-text inhalt first (NoNul-append (print n) (10 ∷ []) (NoNul-print n) (omega arith))
          (omega (arith, digits_few, length-append (print n) (10 ∷ []), a)) in
      let g =
        gather-Gathered 4096 4096 (suc (length input)) i name input (omega arith) (s2 ∙ a)
          (omega (arith, s1, b))
          (rw t2 (omega (arith, digits_few, length-append (print n) (10 ∷ [])))) clean
          (omega arith) in
      let same = c_string-set g.array 4095 (omega (arith, g.gathers.short)) in
      let gathers : Gathers 4096 first input (c_string (set g.array 4095 0)) g.rest =
        subst (λ t. Gathers 4096 first input t g.rest) (sym same)
          (subst (λ y. Gathers 4096 y input (c_string g.array) g.rest) t2 g.gathers) in
      record {
        bytes = set g.array 4095 0;
        more = gathers.more;
        rest = g.rest;
        sends =
            rw (e1, e2, g.returns, put_at-fits g.array 4095 0 (omega (arith, g.sized)), t1) refl;
        sized = length-set g.array 4095 0 ∙ g.sized;
        text = gathers.added ∙ append_assoc (print n) (10 ∷ []) gathers.more;
        gathers = gathers;
      }

serve_round-some :
    (popens : Bool) (opens : List ℕ → Bool) (s : Server) (x : List ℕ)
    → 0 < length x
    → length x ≡ length s.puffer
    → serve_round popens opens s (some x) ≡ handle popens opens s x
unfolding serve_round
serve_round-some popens opens s [] h e = absurd (omega arith)
serve_round-some popens opens s (c ∷ x) h e = ap (handle popens opens s) (
    ap (λ y. (c ∷ x) ++ y) (drop-all s.puffer (length (c ∷ x)) (omega (arith, e)))
    ∙ append-nil (c ∷ x))

-- The server on such a request, if popen works, where `c` and `e` stand in `pid` behind the place of the digits.
pub serve_round-Request :
    (n : ℕ) (inhalt puffer input : List ℕ) (r : Request n inhalt puffer input)
    (opens : List ℕ → Bool) (s : Server) (c e : ℕ) (y : List ℕ)
    → length s.puffer ≡ 4096
    → length (print n) ≤ length s.pid
    → drop (length (print n)) s.pid ≡ c ∷ e ∷ y
    → opens (codes "fifo." ++ c_string (print n ++ (c ∷ []))) ≡ true
    → serve_round true opens s (some r.bytes)
      ≡ ok (record {
        puffer = r.bytes;
        pid = print n ++ (c ∷ 10 ∷ y);
        printed = s.printed ++ (c_string r.bytes ∷ []);
        answered = s.answered ++ ((codes "fifo." ++ c_string (print n ++ (c ∷ []))) ∷ []);
      })
unfolding handle an_den_drucker
serve_round-Request n inhalt puffer input r opens s c e y p l d o =
    let (z, split) = c_string-split r.bytes (omega (arith, r.gathers.short, r.sized)) in
    let shape : r.bytes ≡ print n ++ (10 ∷ (r.more ++ (0 ∷ z))) =
      split ∙ ap (λ t. t ++ (0 ∷ z)) r.text ∙ append_assoc (print n) (10 ∷ r.more) (0 ∷ z) in
    let name =
      ap (λ t. answer_name t s.pid) shape
      ∙ answer_name-room (print n) (r.more ++ (0 ∷ z)) s.pid c e y (AllDigits-print n) l d in
    serve_round-some true opens s r.bytes (omega (arith, r.sized)) (r.sized ∙ sym p)
    ∙ rw (text_of-c_string r.bytes (omega (arith, r.gathers.short, r.sized)), name, o) refl
