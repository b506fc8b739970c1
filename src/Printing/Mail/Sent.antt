-- ===== src/Printing/Mail/Sent.antt =====
-- What popen2.c gives to sendmail.
use linux_unix_development.Common.{
  ℕ, zero, suc, ◌<◌, ◌≤◌, ◌≡◌, refl, sym, ap, ◌∙◌, inl, inr, true, some, List, [], ◌∷◌, ◌++◌,
  length, length-append, set, lt→ltb, take, ◌==◌, Bool-cases, ok, ◌>>=◌, arith,
}
use linux_unix_development.Common.Bytes.{codes, c_string, NoNul, NoNul-append}
use linux_unix_development.Common.Strings.{store, store-text}
use linux_unix_development.Common.Strings.Lines.{NoNewline, line-whole}
use linux_unix_development.Common.Decimal.{skip_space}
use linux_unix_development.Printing.Gathered.{Gathers}
use linux_unix_development.Printing.Mains.{put_at-fits, gather-Text}
use linux_unix_development.Printing.Mail.{
  take_line, cut_last, Shell, word, scan_path, sendmail, Arrays, mail_main,
}

-- An answer that is typed, without its newline.
pub record Asked (x : List ℕ) : Type 0 where
  pub short : length x < 254
  pub one_line : NoNewline x
  pub clean : NoNul x

abbrev pub ended : List ℕ → List ℕ
ended x = x ++ (10 ∷ [])

-- The array after an answer.
pub record Taken (array x rest : List ℕ) : Type 0 where
  pub now : List ℕ
  pub takes : take_line 255 array (x ++ (10 ∷ rest)) ≡ ok (now, rest)
  pub holds : c_string now ≡ ended x
  pub sized : length now ≡ length array

take_line-stores :
    (array x rest : List ℕ)
    → Asked x
    → take_line 255 array (x ++ (10 ∷ rest)) ≡ store array (ended x) >>= λ a. ok (a, rest)
unfolding take_line
take_line-stores array [] rest h = rw (line-whole 254 [] rest h.one_line h.short) refl
take_line-stores array (c ∷ x) rest h = rw (line-whole 254 (c ∷ x) rest h.one_line h.short) refl

take_line-Taken : (array x rest : List ℕ) → length array ≡ 255 → Asked x → Taken array x rest
take_line-Taken array x rest l h =
    let (a, e, t, s) =
      store-text array (ended x) (NoNul-append x (10 ∷ []) h.clean (omega arith, tt))
        (omega (arith, l, h.short, length-append x (10 ∷ []))) in
    record { now = a; takes = take_line-stores array x rest h ∙ rw e refl; holds = t; sized = s }

-- A NUL in a string ends it there.
c_string-take :
    (p : List ℕ) (i : ℕ) → i < length (c_string p) → c_string (set p i 0) ≡ take i (c_string p)
c_string-take [] i h = absurd (omega arith)
c_string-take (c ∷ p) zero h = refl
c_string-take (c ∷ p) (suc i) h = elim (Bool-cases (c == 0)) [
  | inl z ↦ absurd (let h' = rw z at h in omega (arith, h'))
  | inr z ↦ rw z (ap (λ l. c ∷ l) (c_string-take p i (ground arith)))
]

take-append : (x y : List ℕ) → take (length x) (x ++ y) ≡ x
take-append [] y = refl
take-append (c ∷ x) y = ap (λ l. c ∷ l) (take-append x y)

c_string-short : (p : List ℕ) → length (c_string p) ≤ length p
c_string-short [] = omega arith
c_string-short (c ∷ p) = elim (Bool-cases (c == 0)) [
  | inl z ↦ rw z (omega arith)
  | inr z ↦ rw z (omega (arith, c_string-short p))
]

-- The newline of the subject goes.
cut_last-ended :
    (p x : List ℕ) → c_string p ≡ ended x → (q : List ℕ) × (cut_last p ≡ ok q) × (c_string q ≡ x)
unfolding cut_last
cut_last-ended p x h =
    let long : length (c_string p) ≡ suc (length x) =
      omega (arith, ap length h, length-append x (10 ∷ [])) in
    (
      set p (length x) 0,
      rw long (put_at-fits p (length x) 0 (omega (arith, long, c_string-short p))),
      c_string-take p (length x) (omega (arith, long))
          ∙ ap (take (length x)) h
          ∙ take-append x (10 ∷ []),
    )

-- sendmail is found at `path` and can be run.
pub record Finds (shell : Shell) (path : List ℕ) : Type 0 where
  pub out : List ℕ
  pub c : ℕ
  pub cs : List ℕ
  pub shape : path ≡ c ∷ cs
  pub prints : shell.which ≡ some out
  pub first : word (skip_space out) ≡ path
  pub clean : NoNul path
  pub short : length path < 240
  pub starts : shell.runs (path ++ codes " -oi -t") ≡ true

abbrev pub mail_text : (from to sub inhalt : List ℕ) → List ℕ
mail_text from to sub inhalt =
    codes "From:"
    ++ from
    ++ codes " To:"
    ++ to
    ++ (codes "Subject:" ++ sub)
    ++ (codes "\n" ++ inhalt ++ codes "\n")

sendmail-Finds :
    (shell : Shell) (path pfad to from sub inhalt : List ℕ)
    → Finds shell path
    → length pfad ≡ 255
    → sendmail shell pfad to from (some sub) (some inhalt)
      ≡ ok (path ++ codes " -oi -t", mail_text from to sub inhalt)
unfolding sendmail scan_path
sendmail-Finds shell path pfad to from sub inhalt f l =
    let (p, e, t, s) = store-text pfad path f.clean (omega (arith, l, f.short)) in
    let stored : store pfad (f.c ∷ f.cs) ≡ ok p = ap (store pfad) (sym f.shape) ∙ e in
    let long = length-append path (codes " -oi -t") in
    let (q, e', t', s') =
      store-text p (path ++ codes " -oi -t")
        (NoNul-append path (codes " -oi -t") f.clean (omega arith))
        (omega (arith, l, s, f.short, long)) in
    rw (f.prints, f.first ∙ f.shape, stored, t, e', t', f.starts) refl

-- If the three answers fit in their arrays, no NUL is typed, sendmail is found and popen works: whatever
-- the arrays hold at the start, the program ends and runs that command; the mail has the lines
-- "From:" and " To:" with the first two answers, each with its newline, "Subject:" with the third without it, and
-- the beginning of what is typed behind them; what follows that is a line that would have made 8192 bytes or more
-- of the text and what was not read, or nothing.
pub mail_main-sends :
    (shell : Shell) (a : Arrays) (path to from sub body : List ℕ)
    → Finds shell path
    → length a.to ≡ 255
    → length a.from ≡ 255
    → length a.sub ≡ 255
    → length a.inhalt ≡ 8192
    → length a.puffer ≡ 255
    → length a.pfad ≡ 255
    → Asked to
    → Asked from
    → Asked sub
    → NoNul body
    → (text : List ℕ) × (rest : List ℕ) × (mail_main shell a
          (to ++ (10 ∷ (from ++ (10 ∷ (sub ++ (10 ∷ body))))))
        ≡ ok (path ++ codes " -oi -t", mail_text (ended from) (ended to) sub text))
      × Gathers 8192 [] body text rest
unfolding mail_main
mail_main-sends shell a path to from sub body f l1 l2 l3 l4 l5 l6 k1 k2 k3 n =
    let t1 = take_line-Taken a.to to (from ++ (10 ∷ (sub ++ (10 ∷ body)))) l1 k1 in
    let t2 = take_line-Taken a.from from (sub ++ (10 ∷ body)) l2 k2 in
    let t3 = take_line-Taken a.sub sub body l3 k3 in
    let (q, e, s) = cut_last-ended t3.now sub t3.holds in
    let g =
      gather-Text 8192 254 a.inhalt a.puffer body (omega arith) (omega arith) l4 (omega (arith, l5))
        n in
    let text = c_string (set g.array 8191 0) in
    (
      text,
      g.rest,
      rw
          (
            t1.takes,
            t2.takes,
            t3.takes,
            e,
            lt→ltb 0 (length a.inhalt) (omega (arith, l4)),
            g.returns,
            g.ended,
            s,
            t1.holds,
            t2.holds,
          )
          (sendmail-Finds shell path a.pfad (ended to) (ended from) sub text f l6),
      g.gathers,
    )
