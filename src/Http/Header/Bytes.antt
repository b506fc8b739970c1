-- ===== src/Http/Header/Bytes.antt =====
-- What SendHTTPHeader puts on the wire when no call of send fails.
use linux_unix_development.Common.{
  ℕ, ◌≡◌, ap, ◌∙◌, Option, none, some, List, [], ◌∷◌, ◌++◌, append_assoc, Outcome, ok, ◌>>=◌, arith,
}
use linux_unix_development.Common.Bytes.{codes, crlf, NoNul, NoNul-append, c_string-terminated}
use linux_unix_development.Common.Decimal
use linux_unix_development.System.Writer.{Writer, IsWriter, IsReliable, Delivered-reliable}
use linux_unix_development.Http.Send.Delivery.{send_buf-Delivered}
use linux_unix_development.Http.Header.{Calendar, status_line, length_line, say, send_http_header}

-- Lines one behind the other.
abbrev pub join : List (List ℕ) → List ℕ
join [] = []
join (x ∷ xs) = x ++ join xs

abbrev pub AllNoNul : List (List ℕ) → Type 0
AllNoNul [] = Unit
AllNoNul (x ∷ xs) = NoNul x × AllNoNul xs

-- The lines behind those that depend on times.
tail_lines : ℕ → List (List ℕ)
tail_lines size =
    (codes "Accept-Ranges: none" ++ crlf)
    ∷ length_line size
    ∷ (codes "Connection: Keep-Alive" ++ crlf)
    ∷ (codes "Content-Type text/html" ++ crlf)
    ∷ crlf
    ∷ []

modified_lines : Calendar → Option ℕ → List (List ℕ)
modified_lines cal none = []
modified_lines cal (some t) = cal.last_modified t ∷ []

-- The header of an answer, line by line.
pub header_lines : Calendar → (now code : ℕ) → List ℕ → ℕ → Option ℕ → List (List ℕ)
unfolding tail_lines modified_lines
header_lines cal now code phase size pftime =
    status_line code phase
    ∷ cal.date now
    ∷ (codes "Server: http_server 0.1" ++ crlf)
    ∷ (modified_lines cal pftime ++ tail_lines size)

NoNul-status_line : (code : ℕ) (phase : List ℕ) → NoNul phase → NoNul (status_line code phase)
NoNul-status_line code phase h =
    NoNul-append (codes "HTTP/1.1 ") (Decimal.print code ++ (32 ∷ (phase ++ crlf))) (omega arith) (
      NoNul-append (Decimal.print code) (32 ∷ (phase ++ crlf)) (Decimal.NoNul-print code)
        (omega arith, NoNul-append phase crlf h (omega arith)))

NoNul-length_line : (n : ℕ) → NoNul (length_line n)
NoNul-length_line n =
    NoNul-append (codes "Content-Length: ") (Decimal.print n ++ crlf) (omega arith)
      (NoNul-append (Decimal.print n) crlf (Decimal.NoNul-print n) (omega arith))

-- The lines that strftime makes hold no NUL.
pub record IsCalendar (cal : Calendar) : Type 0 where
  pub date_text : (t : ℕ) → NoNul (cal.date t)
  pub modified_text : (t : ℕ) → NoNul (cal.last_modified t)

module _ {w : Writer} {sent : w.Conn → List ℕ} (ok_w : IsWriter w sent) (rel : IsReliable w) where
  -- A run that succeeds and sends `x`.
  abbrev pub Sends : w.Conn → List ℕ → Outcome w.Conn → Type 0
  Sends s x o = (t : w.Conn) × (o ≡ ok t) × (sent t ≡ sent s ++ x)

  pub say-Sends : (s : w.Conn) (x : List ℕ) → NoNul x → Sends s x (say w x s)
  unfolding say
  say-Sends s x h =
      let (t, e, d) = Delivered-reliable w sent rel (send_buf-Delivered ok_w s (x ++ (0 ∷ []))) in
      (t, rw e, d ∙ ap (λ y. sent s ++ y) (c_string-terminated x [] h))

  pub Sends-bind :
      (s : w.Conn) (x y : List ℕ) (o : Outcome w.Conn) (k : w.Conn → Outcome w.Conn)
      → Sends s x o
      → ((t : w.Conn) → Sends t y (k t))
      → Sends s (x ++ y) (o >>= k)
  Sends-bind s x y o k (t, e, d) h =
      let (u, e', d') = h t in (u, rw e e', d' ∙ ap (λ z. z ++ y) d ∙ append_assoc (sent s) x y)

  -- A line, and what follows it.
  then_say :
      (s : w.Conn) (x y : List ℕ) (k : w.Conn → Outcome w.Conn)
      → NoNul x
      → ((t : w.Conn) → Sends t y (k t))
      → Sends s (x ++ y) (say w x s >>= k)
  then_say s x y k h f = Sends-bind s x y (say w x s) k (say-Sends s x h) f

  tail-Sends :
      (size : ℕ) (s : w.Conn)
      → Sends s (join (tail_lines size)) (do
        s ← say w (codes "Accept-Ranges: none" ++ crlf) s
        s ← say w (length_line size) s
        s ← say w (codes "Connection: Keep-Alive" ++ crlf) s
        s ← say w (codes "Content-Type text/html" ++ crlf) s
        say w crlf s)
  unfolding tail_lines
  tail-Sends size s = then_say s _ _ _ (omega arith) λ s.
      then_say s (length_line size) _ _ (NoNul-length_line size) λ s.
        then_say s _ _ _ (omega arith)
          λ s. then_say s _ _ _ (omega arith) λ s. say-Sends s crlf (omega arith)

  -- If no call of send fails, SendHTTPHeader with a phrase and time lines without NUL puts exactly
  -- the lines of the header on the wire: status, date, server, the modification time where one is
  -- given, ranges, length, connection, type, and the empty line.
  pub send_http_header-Sends :
      (cal : Calendar) (now code : ℕ) (phase : List ℕ) (size : ℕ) (pftime : Option ℕ) (s : w.Conn)
      → IsCalendar cal
      → NoNul phase
      → Sends s
          (join (header_lines cal now code phase size pftime))
          (send_http_header w cal now code phase size pftime s)
  unfolding send_http_header header_lines
  send_http_header-Sends cal now code phase size none s c h =
      then_say s (status_line code phase) _ _ (NoNul-status_line code phase h) λ s.
        then_say s (cal.date now) _ _ (c.date_text now)
          λ s. then_say s _ _ _ (omega arith) λ s. tail-Sends size s
  send_http_header-Sends cal now code phase size (some t) s c h =
      then_say s (status_line code phase) _ _ (NoNul-status_line code phase h) λ s.
        then_say s (cal.date now) _ _ (c.date_text now) λ s.
          then_say s _ _ _ (omega arith)
            λ s. then_say s (cal.last_modified t) _ _ (c.modified_text t) λ s. tail-Sends size s
