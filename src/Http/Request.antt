-- ===== src/Http/Request.antt =====
-- httpd of 11_Network/select/http_server.c: reading the header of a request, and the answer.
pub mod Target
pub mod Lines
pub mod Overrun
pub mod Ahead
pub mod Total
pub mod FirstLine
pub mod Whole
pub mod Reply
use linux_unix_development.Common.{
  ℕ, zero, suc, ◌+◌, ◌-◌, Bool, true, false, ◌&&◌, ◌||◌, Option, none, some, List, [], ◌∷◌, ◌++◌,
  ◌==◌, if◌then◌else◌, length, null_pointer, Outcome, ok, fault, out_of_fuel, ◌>>=◌,
}
use linux_unix_development.Common.Bytes.{codes, c_string, str_eq, crlf}
use linux_unix_development.Common.Strings.{zeros, store, strcpy, strcat, line}
use linux_unix_development.System.Writer.{Writer}
use linux_unix_development.Http.Token.{get_token}
use linux_unix_development.Http.Send.{send_block}
use linux_unix_development.Http.Header.{Calendar, send_http_header, say}

-- The return value: 1 keeps the connection, 0 says nothing of it, -1 ends it.
pub data Verdict : Type 0 where
  keep_alive unset end : Verdict

-- The local variables of the loop that reads the header.
pub record Locals : Type 0 where
  pub retval : Verdict
  pub buf : List ℕ
  pub method : List ℕ
  pub headline : List ℕ
  pub request_header : List ℕ
  pub title : List ℕ
  pub value : List ℕ
  pub is_first : Bool

unfoldable pub initial : Locals
initial = record {
  retval = unset;
  buf = zeros 512;
  method = zeros 255;
  headline = zeros 1024;
  request_header = zeros 2048;
  title = zeros 32;
  value = zeros 128;
  is_first = true;
}

-- The value of a header line `Connection`.
connection : Locals → Outcome Locals
connection l = do
  g ← get_token l.buf 2 l.value 128 b' '
  ok (record l {
    value = g.token;
    retval = if str_eq (c_string g.token) (codes "Keep-Alive") then keep_alive else end;
  })

-- The first line is kept, and its first word is the method.
first_line : Locals → Outcome Locals
first_line l = do
  h ← strcpy l.headline l.buf
  g ← get_token h 1 l.method 255 0
  ok (record l { headline = h; method = g.token; is_first = false })

-- Any other line is added to the header.
next_line : Locals → Outcome Locals
next_line l = do
  h ← strcat l.request_header l.buf
  g ← get_token l.buf 1 l.title 32 b':'
  let l' = record l { request_header = h; title = g.token }
  if str_eq (c_string g.token) (codes "Connection") then connection l' else ok l'

-- The body of the loop behind the test for the empty line; `r` is `buf`.
pub header_line : Locals → Outcome Locals
unfolding connection first_line next_line
header_line l = if l.is_first then first_line l else next_line l

-- Whether the line in the buffer begins with "\r\n".
abbrev pub is_blank : List ℕ → Bool
is_blank (a ∷ b ∷ cs) = a == 13 && b == 10
is_blank cs = false

-- The loop, on the bytes that the client sends. At the end of the stream fgets returns NULL, which
-- the test for the empty line dereferences. One unit of fuel for each byte is enough.
pub read_header : ℕ → List ℕ → Locals → Outcome (Locals × List ℕ)
read_header zero input l = out_of_fuel
read_header (suc fuel) [] l = fault null_pointer
read_header (suc fuel) (c ∷ cs) l =
    let (x, rest) = line 2047 (c ∷ cs) in
    store l.buf x >>= λ b.
    let l' = record l { buf = b } in
    let next = header_line l' >>= read_header fuel rest in
    if is_blank b then ok (l', rest) else next

-- The bytes that the reads of a stream give.
unfoldable pub joined : List (List ℕ) → List ℕ
joined [] = []
joined (x ∷ xs) = x ++ joined xs

-- stdio reads from the socket only when it has no byte left: the reads that are still to be made when
-- the first `n` bytes were taken. Each read gives at least one byte.
pub unread : (n : ℕ) → List (List ℕ) → List (List ℕ)
unread zero reads = reads
unread (suc n) [] = []
unread (suc n) (x ∷ reads) = unread (suc n - length x) reads

-- A file that can be opened: its bytes and its modification time.
pub record FileData : Type 0 where
  pub content : List ℕ
  pub mtime : ℕ

unfoldable pub error404 : List ℕ
error404 =
    codes "<HTML><HEAD><TITLE>404 Not Found</TITLE>"
    ++ (codes "</HEAD><BODY><H1>Nicht gefunden</H1>"
        ++ (codes "Die angeforderte URL konnte nicht auf "
            ++ (codes "disem Server gefunden werden."
                ++ (codes "<P><HR><I>http_server0.1</I></BODY></HTML>" ++ (crlf ++ crlf)))))

-- `files` is what fopen finds, `now` what time gives.
module _ (w : Writer) (cal : Calendar) (files : List ℕ → Option FileData) (now : ℕ) where
  open w use {Conn}

  -- The three sends of either answer: the header, `size` bytes of the body, the empty line.
  pub deliver :
      (code : ℕ) (phase : List ℕ) (pftime : Option ℕ) (body : List ℕ) → ℕ → Conn → Outcome Conn
  deliver code phase pftime body size s = do
    s ← send_http_header w cal now code phase size pftime s
    r ← send_block w s body size
    say w (crlf ++ crlf) r.1

  pub not_found : Conn → Outcome (Verdict × Conn)
  not_found s = do
    s ← deliver 404 (codes "FILE NOT FOUND.") none (error404 ++ (0 ∷ [])) (length error404 + 1) s
    ok (end, s)

  pub found : FileData → Verdict → Conn → Outcome (Verdict × Conn)
  found f retval s = do
    s ← deliver 200 (codes "OK") (some f.mtime) f.content (length f.content) s
    ok (retval, s)

  -- The branch on the result of fopen.
  pub respond : Verdict → Option FileData → Conn → Outcome (Verdict × Conn)
  respond retval none s = not_found s
  respond retval (some f) s = found f retval s

  -- The branch for GET.
  pub serve : Locals → Conn → Outcome (Verdict × Conn)
  serve l s = do
    g ← get_token l.headline 2 (zeros 512) 1024 0
    _ ← get_token g.token 1 (zeros 255) 255 b'/'
    path ← store (zeros 512) (b'.' ∷ c_string g.token)
    respond l.retval (files (c_string path)) s

  -- What follows the header.
  pub answer : Locals → Conn → Outcome (Verdict × Conn)
  answer l s =
      let method = c_string l.method in
      if str_eq method (codes "GET") || str_eq method (codes "get")
      then serve l s
      else ok (l.retval, s)

  -- httpd: the verdict, the connection, and the reads that it has not made. The stream is a new one, and
  -- what it has read and not given out is lost when httpd returns.
  pub httpd : (reads : List (List ℕ)) → Conn → Outcome (Verdict × Conn × List (List ℕ))
  unfolding initial
  httpd reads s = do
    let input = joined reads
    (l, rest) ← read_header (suc (length input)) input initial
    (v, s) ← answer l s
    ok (v, s, unread (length input - length rest) reads)
