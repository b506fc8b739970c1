-- ===== src/Http/Header.antt =====
-- SendHTTPHeader of 11_Network/select/http_server.c. The two lines that strftime makes of a time
-- are parameters; the results of the calls of SendBuf are not looked at, as in the source.
pub mod Bytes
use linux_unix_development.Common.{ℕ, Option, none, some, List, [], ◌∷◌, ◌++◌, Outcome, ok, ◌>>=◌}
use linux_unix_development.Common.Bytes.{codes, crlf}
use linux_unix_development.Common.Decimal
use linux_unix_development.System.Writer.{Status, Writer}
use linux_unix_development.Http.Send.{send_buf}

-- gmtime and strftime: the lines `Date:` and `Last-Modified:` of a time.
pub record Calendar : Type 0 where
  pub date : ℕ → List ℕ
  pub last_modified : ℕ → List ℕ

-- `sprintf(msg, "HTTP/1.1 %d %s\r\n", code, phase)`
abbrev pub status_line : ℕ → List ℕ → List ℕ
status_line code phase = codes "HTTP/1.1 " ++ (Decimal.print code ++ (32 ∷ (phase ++ crlf)))

-- `sprintf(msg, "Content-Length: %d\r\n", length)`
abbrev pub length_line : ℕ → List ℕ
length_line n = codes "Content-Length: " ++ (Decimal.print n ++ crlf)

module _ (w : Writer) where
  open w use {Conn}

  -- A call of SendBuf on a string, its result dropped.
  unfoldable pub say : List ℕ → Conn → Outcome Conn
  say x s = send_buf w s (x ++ (0 ∷ [])) >>= λ r. ok r.1

module _ (w : Writer) (cal : Calendar) where
  open w use {Conn}

  -- `now` is what time() gives.
  unfoldable pub send_http_header :
      (now code : ℕ) (phase : List ℕ) (size : ℕ) (pftime : Option ℕ) → Conn → Outcome Conn
  send_http_header now code phase size pftime s = do
    s ← say w (status_line code phase) s
    s ← say w (cal.date now) s
    s ← say w (codes "Server: http_server 0.1" ++ crlf) s
    s ← elim pftime [ none ↦ ok s | some t ↦ say w (cal.last_modified t) s ]
    s ← say w (codes "Accept-Ranges: none" ++ crlf) s
    s ← say w (length_line size) s
    s ← say w (codes "Connection: Keep-Alive" ++ crlf) s
    s ← say w (codes "Content-Type text/html" ++ crlf) s
    say w crlf s
