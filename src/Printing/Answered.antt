-- ===== src/Printing/Answered.antt =====
-- The FIFO on which the printer server answers.
use linux_unix_development.Common.{
  ℕ, suc, ◌+◌, ◌≤◌, ◌<◌, ◌≡◌, refl, sym, ap, ◌∙◌, inl, inr, false, List, [], ◌∷◌, ◌++◌,
  append_assoc, length, length-append, length-drop, set, take, drop, ltb, lt→ltb, not-lt→ltb, ◌==◌,
  Bool-cases, write_out_of_bounds, ok, fault, arith,
}
use linux_unix_development.Common.Bytes.{codes, c_string}
use linux_unix_development.Common.Decimal.{print, AllDigits, AllDigits-print, length-print-ge}
use linux_unix_development.Printing.{put_at, copy_pid, answer_name}

set-append : (x : List ℕ) (c v : ℕ) (y : List ℕ) → set (x ++ (c ∷ y)) (length x) v ≡ x ++ (v ∷ y)
set-append [] c v y = refl
set-append (a ∷ x) c v y = ap (λ l. a ∷ l) (set-append x c v y)

put_at-append :
    (x : List ℕ) (c v : ℕ) (y : List ℕ) → put_at (x ++ (c ∷ y)) (length x) v ≡ ok (x ++ (v ∷ y))
put_at-append x c v y =
    rw (lt→ltb (length x) (length (x ++ (c ∷ y))) (omega (arith, length-append x (c ∷ y))))
      (ap ok (set-append x c v y))

-- The loop writes the digits over the start of `pid`: `x` is written, `s` is the old rest.
copy_pid-digits :
    (ds r x s : List ℕ)
    → AllDigits ds
    → length ds ≤ length s
    → copy_pid (ds ++ (10 ∷ r)) (x ++ s) (length x)
      ≡ ok (x ++ (ds ++ drop (length ds) s), length x + length ds)
unfolding copy_pid
copy_pid-digits [] r x s h l = ap (λ n. ok (x ++ s, n)) (omega arith)
copy_pid-digits (d ∷ ds) r x [] h l = absurd (omega arith)
copy_pid-digits (d ∷ ds) r x (c ∷ s) h l =
    let other : (d == 10) ≡ false = ground (arith, h.0) in
    let longer : length (x ++ (d ∷ [])) ≡ suc (length x) =
      omega (arith, length-append x (d ∷ [])) in
    let ih = copy_pid-digits ds r (x ++ (d ∷ [])) s h.1 (omega arith) in
    rw (other, put_at-append x c d s)
      (ap (λ y. copy_pid (ds ++ (10 ∷ r)) y (suc (length x))) (sym (append_assoc x (d ∷ []) s))
        ∙ ap (copy_pid (ds ++ (10 ∷ r)) ((x ++ (d ∷ [])) ++ s)) (sym longer)
        ∙ ih
        ∙ ap (λ y. ok (y, length (x ++ (d ∷ [])) + length ds))
            (append_assoc x (d ∷ []) (ds ++ drop (length ds) s))
        ∙ ap (λ n. ok (x ++ (d ∷ (ds ++ drop (length ds) s)), n)) (omega (arith, longer)))

-- It runs over the end of `pid` where there are more digits than room.
copy_pid-overflow :
    (ds r x s : List ℕ)
    → AllDigits ds
    → length s < length ds
    → copy_pid (ds ++ (10 ∷ r)) (x ++ s) (length x) ≡ fault write_out_of_bounds
unfolding copy_pid
copy_pid-overflow [] r x s h l = absurd (omega arith)
copy_pid-overflow (d ∷ ds) r x [] h l =
    let other : (d == 10) ≡ false = ground (arith, h.0) in
    rw (other, not-lt→ltb (length x) (length (x ++ [])) (omega (arith, length-append x []))) refl
copy_pid-overflow (d ∷ ds) r x (c ∷ s) h l =
    let other : (d == 10) ≡ false = ground (arith, h.0) in
    let longer : length (x ++ (d ∷ [])) ≡ suc (length x) =
      omega (arith, length-append x (d ∷ [])) in
    rw (other, put_at-append x c d s)
      (ap (λ y. copy_pid (ds ++ (10 ∷ r)) y (suc (length x))) (sym (append_assoc x (d ∷ []) s))
        ∙ ap (copy_pid (ds ++ (10 ∷ r)) ((x ++ (d ∷ [])) ++ s)) (sym longer)
        ∙ copy_pid-overflow ds r (x ++ (d ∷ [])) s h.1 (omega arith))

take-append_suc :
    (x : List ℕ) (c : ℕ) (y : List ℕ) → take (suc (length x)) (x ++ (c ∷ y)) ≡ x ++ (c ∷ [])
take-append_suc [] c y = refl
take-append_suc (a ∷ x) c y = ap (λ l. a ∷ l) (take-append_suc x c y)

set-append_suc :
    (x : List ℕ) (c e v : ℕ) (y : List ℕ)
    → set (x ++ (c ∷ e ∷ y)) (suc (length x)) v ≡ x ++ (c ∷ v ∷ y)
set-append_suc [] c e v y = refl
set-append_suc (a ∷ x) c e v y = ap (λ l. a ∷ l) (set-append_suc x c e v y)

put_at-append_suc :
    (x : List ℕ) (c e v : ℕ) (y : List ℕ)
    → put_at (x ++ (c ∷ e ∷ y)) (suc (length x)) v ≡ ok (x ++ (c ∷ v ∷ y))
put_at-append_suc x c e v y =
    let room : suc (length x) < length (x ++ (c ∷ e ∷ y)) =
      omega (arith, length-append x (c ∷ e ∷ y)) in
    rw (lt→ltb (suc (length x)) (length (x ++ (c ∷ e ∷ y))) room) (ap ok (set-append_suc x c e v y))

copy_pid-start :
    (ds r p : List ℕ)
    → AllDigits ds
    → length ds ≤ length p
    → copy_pid (ds ++ (10 ∷ r)) p 0 ≡ ok (ds ++ drop (length ds) p, length ds)
copy_pid-start ds r p h l =
    copy_pid-digits ds r [] p h l
    ∙ ap (λ n. ok (ds ++ drop (length ds) p, n))
        (let e : 0 + length ds ≡ length ds = omega arith in e)

-- The answer to a request whose number leaves room: behind the digits stands the byte `c` that was in
-- `pid` before.
pub answer_name-room :
    (ds r p : List ℕ) (c e : ℕ) (y : List ℕ)
    → AllDigits ds
    → length ds ≤ length p
    → drop (length ds) p ≡ c ∷ e ∷ y
    → answer_name (ds ++ (10 ∷ r)) p
      ≡ ok (ds ++ (c ∷ 10 ∷ y), codes "fifo." ++ c_string (ds ++ (c ∷ [])))
unfolding answer_name
answer_name-room ds r p c e y h l k =
    rw (copy_pid-start ds r p h l, k, put_at-append_suc ds c e 10 y, take-append_suc ds c (10 ∷ y))
      refl

-- A process number of at least 10000 has five digits or more: copying it and the newline behind it
-- writes past the end of `pid`, whatever stands in `pid` and behind the number in the request.
pub answer_name-overflow :
    (n : ℕ) (r p : List ℕ)
    → 10000 ≤ n
    → length p ≡ 6
    → answer_name (print n ++ (10 ∷ r)) p ≡ fault write_out_of_bounds
unfolding answer_name
answer_name-overflow n r p h l = elim (Bool-cases (ltb (length p) (length (print n)))) [
  | inl e ↦ rw (copy_pid-overflow (print n) r [] p (AllDigits-print n) (ground arith)) refl
  | inr e ↦
      let many = length-print-ge 4 n h in
      let room : length (print n) ≤ length p = ground arith in
      rw
        (
          copy_pid-start (print n) r p (AllDigits-print n) room,
          not-lt→ltb (suc (length (print n))) (length (print n ++ drop (length (print n)) p)) (
              omega (
                arith,
                many,
                l,
                length-append (print n) (drop (length (print n)) p),
                length-drop (length (print n)) p,
              )),
        )
        refl
]
