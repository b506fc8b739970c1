-- ===== src/Printing/Names.antt =====
-- When the printer server answers on the FIFO of its client, and when it does not.
use linux_unix_development.Common.{
  ℕ, suc, ◌≤◌, ◌<◌, ◌≡◌, refl, sym, ap, ap₂, ◌∙◌, Bool, true, some, List, [], ◌∷◌, ◌++◌,
  append_assoc, length, length-append, drop, write_out_of_bounds, ok, fault, arith,
}
use linux_unix_development.Common.Bytes.{codes, c_string, c_string-terminated, NoNul, NoNul-append}
use linux_unix_development.Common.Decimal.{print, NoNul-print, length-print-le}
use linux_unix_development.Printing.{
  request_of, fifo_of, Server, an_den_drucker, handle, serve_round, serve_rounds,
}
use linux_unix_development.Printing.Answered.{answer_name-overflow}
use linux_unix_development.Printing.Requests.{
  Request, request_of-Request, serve_round-Request, text_of-c_string,
}

c_string-whole : (x : List ℕ) → NoNul x → c_string x ≡ x
c_string-whole [] h = refl
c_string-whole (c ∷ x) h = ground (arith, h.0, c_string-whole x h.1)

drop-append : (x y : List ℕ) → drop (length x) (x ++ y) ≡ y
drop-append [] y = refl
drop-append (c ∷ x) y = drop-append x y

-- The request of a process with at most four digits, in arrays of BUF bytes whatever they hold, when
-- no NUL is typed and the server reads it whole: if popen works in the server, a NUL stands in `pid`
-- behind the place of the digits and the client's FIFO can be opened, the server prints the request and answers on that FIFO.
pub serve_round-answers :
    (n : ℕ) (inhalt puffer input : List ℕ) (opens : List ℕ → Bool) (s : Server) (e : ℕ) (y : List ℕ)
    → n < 10000
    → length inhalt ≡ 4096
    → length puffer ≡ 4096
    → NoNul input
    → length s.puffer ≡ 4096
    → length s.pid ≡ 6
    → drop (length (print n)) s.pid ≡ 0 ∷ e ∷ y
    → opens (fifo_of n) ≡ true
    → (name : List ℕ) × (bytes : List ℕ) × (t : Server) × (request_of n inhalt puffer input
        ≡ ok (name, bytes))
      × (serve_round true opens s (some bytes) ≡ ok t)
      × (t.printed ≡ s.printed ++ (c_string bytes ∷ []))
      × (t.answered ≡ s.answered ++ (name ∷ []))
serve_round-answers n inhalt puffer input opens s e y few a b clean p l d o =
    let r = request_of-Request n inhalt puffer input few a b clean in
    let digits = c_string-terminated (print n) [] (NoNul-print n) in
    let name : codes "fifo." ++ c_string (print n ++ (0 ∷ [])) ≡ fifo_of n =
      ap (λ t. codes "fifo." ++ t) digits in
    let small = length-print-le 3 n few in
    (
      fifo_of n,
      r.bytes,
      record {
        puffer = r.bytes;
        pid = print n ++ (0 ∷ 10 ∷ y);
        printed = s.printed ++ (c_string r.bytes ∷ []);
        answered = s.answered ++ ((codes "fifo." ++ c_string (print n ++ (0 ∷ []))) ∷ []);
      },
      r.sends,
      serve_round-Request n inhalt puffer input r opens s 0 e y p (omega (arith, small, l)) d
          (ap opens name ∙ o),
      refl,
      ap (λ t. s.answered ++ (t ∷ [])) name,
    )

-- Two requests one behind the other, for which popen works, where the number of the second process has one digit more than
-- that of the first, and at most four: the newline that the first left in `pid` becomes part of the
-- name, so that the server answers the second on "fifo.<number>\n", which is not its client's FIFO.
pub serve_rounds-stale :
    (m n : ℕ) (inhalt puffer input inhalt' puffer' input' : List ℕ)
    (r : Request m inhalt puffer input) (q : Request n inhalt' puffer' input')
    (opens : List ℕ → Bool) (s : Server) (e f : ℕ) (y : List ℕ)
    → n < 10000
    → length (print n) ≡ suc (length (print m))
    → length s.puffer ≡ 4096
    → length s.pid ≡ 6
    → drop (length (print m)) s.pid ≡ 0 ∷ e ∷ f ∷ y
    → opens (fifo_of m) ≡ true
    → opens (fifo_of n ++ (10 ∷ [])) ≡ true
    → (t : Server) × (serve_rounds opens s ((true, some r.bytes) ∷ (true, some q.bytes) ∷ [])
        ≡ ok t)
      × (t.answered ≡ (s.answered ++ (fifo_of m ∷ [])) ++ ((fifo_of n ++ (10 ∷ [])) ∷ []))
unfolding serve_rounds
serve_rounds-stale m n inhalt puffer input inhalt' puffer' input' r q opens s e f y few longer p l d
      o o' =
    let small = length-print-le 3 n few in
    let name : codes "fifo." ++ c_string (print m ++ (0 ∷ [])) ≡ fifo_of m =
      ap (λ t. codes "fifo." ++ t) (c_string-terminated (print m) [] (NoNul-print m)) in
    let name' : codes "fifo." ++ c_string (print n ++ (10 ∷ [])) ≡ fifo_of n ++ (10 ∷ []) =
      ap (λ t. codes "fifo." ++ t)
        (c_string-whole (print n ++ (10 ∷ []))
          (NoNul-append (print n) (10 ∷ []) (NoNul-print n) (omega arith)))
      ∙ sym (append_assoc (codes "fifo.") (print n) (10 ∷ [])) in
    let pid = print m ++ (0 ∷ 10 ∷ f ∷ y) in
    let t : Server = record {
      puffer = r.bytes;
      pid = pid;
      printed = s.printed ++ (c_string r.bytes ∷ []);
      answered = s.answered ++ ((codes "fifo." ++ c_string (print m ++ (0 ∷ []))) ∷ []);
    } in
    let first =
      serve_round-Request m inhalt puffer input r opens s 0 e (f ∷ y) p
        (omega (arith, small, longer, l)) d (ap opens name ∙ o) in
    let place : drop (length (print n)) pid ≡ 10 ∷ f ∷ y =
      ap (λ k. drop k pid)
        (longer ∙ sym (let k = length-append (print m) (0 ∷ []) in omega (arith, k)))
      ∙ ap (drop (length (print m ++ (0 ∷ []))))
          (sym (append_assoc (print m) (0 ∷ []) (10 ∷ f ∷ y)))
      ∙ drop-append (print m ++ (0 ∷ [])) (10 ∷ f ∷ y) in
    let second =
      serve_round-Request n inhalt' puffer' input' q opens t 10 f y r.sized
        (omega (arith, longer, length-append (print m) (0 ∷ 10 ∷ f ∷ y))) place
        (ap opens name' ∙ o') in
    (
      record {
        puffer = q.bytes;
        pid = print n ++ (10 ∷ 10 ∷ y);
        printed = t.printed ++ (c_string q.bytes ∷ []);
        answered = t.answered ++ ((codes "fifo." ++ c_string (print n ++ (10 ∷ []))) ∷ []);
      },
      rw (first, second) refl,
      ap₂ (λ u v. (s.answered ++ (u ∷ [])) ++ (v ∷ [])) name name',
    )

-- If popen works, a request of a process with five digits or more, with a NUL behind its text, writes
-- past the end of `pid`, whatever stands there before.
pub handle-overflow :
    (n : ℕ) (r : List ℕ) (opens : List ℕ → Bool) (s : Server)
    → 10000 ≤ n
    → length s.pid ≡ 6
    → length (c_string (print n ++ (10 ∷ r))) < length (print n ++ (10 ∷ r))
    → handle true opens s (print n ++ (10 ∷ r)) ≡ fault write_out_of_bounds
unfolding handle an_den_drucker
handle-overflow n r opens s h l t =
    rw (text_of-c_string (print n ++ (10 ∷ r)) t, answer_name-overflow n r s.pid h l) refl
