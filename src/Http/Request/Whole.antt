-- ===== src/Http/Request/Whole.antt =====
-- httpd on a whole request: the request line and an empty line.
use linux_unix_development.Common.{
  ℕ, suc, ◌+◌, ◌-◌, ◌<◌, ◌≡◌, refl, ap, ◌∙◌, sym, subst, inl, true, false, Option, some, List, [],
  ◌∷◌, ◌++◌, lt→ltb, length, length-append, length-drop, drop, get_elem?, ok, arith,
}
use linux_unix_development.Common.Bytes.{codes, crlf, c_string, c_string-terminated}
use linux_unix_development.Common.Strings.{zeros, length-zeros, store, strcpy, line}
use linux_unix_development.System.Writer.{Writer, IsWriter, IsReliable}
use linux_unix_development.Http.Token.{Got, get_token}
use linux_unix_development.Http.Token.Rounds.{Short, get_token-word}
use linux_unix_development.Http.Header.{Calendar}
use linux_unix_development.Http.Header.Bytes.{IsCalendar}
use linux_unix_development.Http.Request.Ahead.{Ahead, unread-Ahead}
use linux_unix_development.Http.Request.{
  is_blank, unset, Locals, initial, first_line, header_line, read_header, FileData, joined, unread,
  httpd,
}
use linux_unix_development.Http.Request.Target.{HasTarget}
use linux_unix_development.Http.Request.Reply.{reply_bytes, reply_verdict, answer-get}
use linux_unix_development.Common.Strings.Lines.{line-whole}
use linux_unix_development.Http.Request.FirstLine.{
  IsTarget, AllToken, request_line, words-request_line, length-request_line, NoNul-request_line,
  line-request_line,
}

store-fits :
    (dst x : List ℕ)
    → length x < length dst
    → store dst x ≡ ok (x ++ (0 ∷ drop (suc (length x)) dst))
store-fits dst x l = rw (lt→ltb (length x) (length dst) l) refl

-- A round of the loop on a line that is not blank.
read_header-line :
    (fuel c : ℕ) (cs x rest b : List ℕ) (l l' : Locals)
    → line 2047 (c ∷ cs) ≡ (x, rest)
    → store l.buf x ≡ ok b
    → is_blank b ≡ false
    → header_line (record l { buf = b }) ≡ ok l'
    → read_header (suc fuel) (c ∷ cs) l ≡ read_header fuel rest l'
unfolding read_header
read_header-line fuel c cs x rest b l l' e1 e2 e3 e4 = rw (e1, e2, e3, e4) refl

-- The last round.
read_header-blank :
    (fuel c : ℕ) (cs x rest b : List ℕ) (l : Locals)
    → line 2047 (c ∷ cs) ≡ (x, rest)
    → store l.buf x ≡ ok b
    → is_blank b ≡ true
    → read_header (suc fuel) (c ∷ cs) l ≡ ok (record l { buf = b }, rest)
unfolding read_header
read_header-blank fuel c cs x rest b l e1 e2 e3 = rw (e1, e2, e3) refl

header_line-first :
    (l : Locals) (h t : List ℕ) (g : Got)
    → l.is_first ≡ true
    → strcpy l.headline l.buf ≡ ok h
    → get_token h 1 l.method 255 0 ≡ ok g
    → header_line l ≡ ok (record l { headline = h; method = g.token; is_first = false })
unfolding header_line first_line
header_line-first l h t g e1 e2 e3 = rw (e1, e2, e3) refl

-- An array of `n` bytes that holds the request line.
abbrev filled : ℕ → List ℕ → List ℕ
filled n u = request_line u ++ (0 ∷ drop (suc (length (request_line u))) (zeros n))

c_string-filled : (n : ℕ) (u : List ℕ) → AllToken u → c_string (filled n u) ≡ request_line u
c_string-filled n u h =
    c_string-terminated (request_line u) (drop (suc (length (request_line u))) (zeros n))
      (NoNul-request_line u h)

store-filled :
    (n : ℕ) (u : List ℕ) → length u + 15 < n → store (zeros n) (request_line u) ≡ ok (filled n u)
store-filled n u l =
    store-fits (zeros n) (request_line u) (omega (arith, l, length-request_line u, length-zeros n))

length-filled : (n : ℕ) (u : List ℕ) → length u + 15 < n → length (filled n u) ≡ n
length-filled n u l = omega (
  arith,
  l,
  length-request_line u,
  length-append (request_line u) (0 ∷ drop (suc (length (request_line u))) (zeros n)),
  length-drop (suc (length (request_line u))) (zeros n),
  length-zeros n,
)

-- The local variables behind the request line.
after_line : List ℕ → List ℕ → Locals
after_line u t = record {
  retval = unset;
  buf = filled 512 u;
  method = t;
  headline = filled 1024 u;
  request_header = zeros 2048;
  title = zeros 32;
  value = zeros 128;
  is_first = false;
}

header_line-request :
    (u : List ℕ)
    → IsTarget u
    → (t : List ℕ) × (header_line (record initial { buf = filled 512 u }) ≡ ok (after_line u t))
      × (c_string t ≡ codes "GET")
unfolding initial after_line
header_line-request u i =
    let (ws, w) = words-request_line u (drop (suc (length (request_line u))) (zeros 1024)) i in
    let (t, eq, ct, lt) =
      get_token-word (filled 1024 u) (zeros 255) 0 255 0 255 (codes "GET") (omega arith)
        (omega (arith, length-zeros 255)) (subst (Short 255 1) (sym w) (omega arith, tt))
        (ap (λ l. get_elem? l 0) w) in
    (
      t,
      header_line-first (record initial { buf = filled 512 u }) (filled 1024 u) t
          (record { len = some 3; token = t }) refl
          (ap (store (zeros 1024)) (c_string-filled 512 u i.tokens)
            ∙ store-filled 1024 u (omega (arith, i.short)))
          eq,
      ct,
    )

-- What the loop makes of the request line and the empty line.
read_header-request :
    (u rest : List ℕ) (fuel : ℕ)
    → IsTarget u
    → (l : Locals) × (read_header (suc (suc fuel)) (request_line u ++ (13 ∷ 10 ∷ rest)) initial
        ≡ ok (l, rest))
      × (c_string l.method ≡ codes "GET")
      × HasTarget l.headline u
      × (l.retval ≡ unset)
unfolding initial after_line
read_header-request u rest fuel i =
    let (ws, w) = words-request_line u (drop (suc (length (request_line u))) (zeros 1024)) i in
    let (t, eq, ct) = header_line-request u i in
    (
      record (after_line u t) { buf = crlf ++ (0 ∷ drop 3 (filled 512 u)) },
      read_header-line (suc fuel) _ _ (request_line u) (13 ∷ 10 ∷ rest) (filled 512 u) initial
            (after_line u t) (line-request_line u (13 ∷ 10 ∷ rest) i)
            (store-filled 512 u (omega (arith, i.short))) refl eq
          ∙ read_header-blank fuel 13 (10 ∷ rest) crlf rest (crlf ++ (0 ∷ drop 3 (filled 512 u)))
              (after_line u t) (line-whole 2047 (13 ∷ []) rest (refl, tt) (omega arith))
              (store-fits (filled 512 u) crlf
                (omega (arith, i.short, length-filled 512 u (omega (arith, i.short)))))
              refl,
      ct,
      record {
        short = subst (Short 511 2) (sym w) (omega arith, (omega (arith, i.short), tt));
        target = ap (λ l. get_elem? l 1) w;
        component = i.component;
      },
      refl,
    )

-- If no call of send fails and the time lines hold no NUL: on the request line "GET u HTTP/1.1", an
-- empty line and any bytes behind them, in whatever reads they come, where the bytes of `u` end no word
-- and `u` and its first path component fit their arrays, httpd sends the header, the file `.u` and an
-- empty line and returns 0 if that file can be opened, or sends the 404 header, the error page and an
-- empty line and returns -1 if it cannot; and it makes the reads up to the one that brings the end of the
-- empty line and no further one, so that what else this read brings is lost for the next call.
pub httpd-request :
    {w : Writer} {sent : w.Conn → List ℕ} (ok_w : IsWriter w sent) (rel : IsReliable w)
    (cal : Calendar) (c : IsCalendar cal) (files : List ℕ → Option FileData) (now : ℕ)
    (u rest : List ℕ) (reads : List (List ℕ)) (s : w.Conn)
    → IsTarget u
    → joined reads ≡ request_line u ++ (13 ∷ 10 ∷ rest)
    → (t : w.Conn) × (left : List (List ℕ)) × (httpd w cal files now reads s
        ≡ ok (reply_verdict unset (files (b'.' ∷ u)), t, left))
      × (sent t ≡ sent s ++ reply_bytes cal now (files (b'.' ∷ u)))
      × Ahead (length (request_line u) + 2) reads left
unfolding httpd
httpd-request ok_w rel cal c files now u rest reads s i e =
    let (l, eq, get, target, v) =
      read_header-request u rest (length (drop 1 (request_line u ++ (13 ∷ 10 ∷ rest)))) i in
    let (t, eq', d) = answer-get ok_w rel cal c files now l u s (inl get) target in
    let both = length-append (request_line u) (13 ∷ 10 ∷ rest) in
    let used : length (request_line u ++ (13 ∷ 10 ∷ rest)) - length rest
        ≡ length (request_line u) + 2 =
      omega (arith, both) in
    (
      t,
      unread (length (request_line u) + 2) reads,
      rw (e, eq, eq', used)
          (ap
            (λ x.
              ok
                (reply_verdict x (files (b'.' ∷ u)), t, unread (length (request_line u) + 2) reads))
            v),
      d,
      unread-Ahead (length (request_line u) + 2) reads (omega arith)
          (omega (arith, ap length e, both)),
    )
