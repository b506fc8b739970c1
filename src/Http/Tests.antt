-- ===== src/Http/Tests.antt =====
-- The theorems of the HTTP server at concrete requests and connections.
use linux_unix_development.Common.{
  if◌then◌else◌, none, Ends, ℕ, zero, suc, ◌≡◌, refl, inl, false, Option, some, List, [], ◌∷◌, ◌++◌,
  length, ◌+◌, take, replicate, ok, arith,
}
use linux_unix_development.Common.Bytes.{str_eq, codes, crlf, c_string}
use linux_unix_development.Common.Strings.{zeros}
use linux_unix_development.System.Chunked.{chunked, received, chunked-IsWriter, chunked-IsReliable}
use linux_unix_development.System.Writer.{Delivered}
use linux_unix_development.Http.Token.{get_token}
use linux_unix_development.Http.Token.Split.{words_from, words}
use linux_unix_development.Http.Token.Bounds.{TokenSafe, get_token-TokenSafe}
use linux_unix_development.Http.Token.Rounds.{get_token-word}
use linux_unix_development.Http.Send.{send_block}
use linux_unix_development.Http.Send.Delivery.{send_block-Delivered}
use linux_unix_development.Http.Header.{Calendar}
use linux_unix_development.Http.Header.Bytes.{IsCalendar}
use linux_unix_development.Http.Request.{unset, Locals, FileData, answer, httpd, joined}
use linux_unix_development.Http.Request.Target.{HasTarget}
use linux_unix_development.Http.Request.FirstLine.{IsTarget, request_line}
use linux_unix_development.Http.Request.Whole.{httpd-request}
use linux_unix_development.Http.Request.Total.{httpd-Ends}
use linux_unix_development.Http.Main.{Fork, forked, fork_failed}
use linux_unix_development.Http.Main.Session.{Session}
use linux_unix_development.Http.Request.Ahead.{Ahead}
use linux_unix_development.Common.Strings.Lines.{NoNewline}
use linux_unix_development.Http.Request.Reply.{reply_bytes, reply_verdict, answer-get}

abbrev request : List ℕ
request = codes "GET /a.html HTTP/1.1\r\n" ++ (0 ∷ [])

get_token-word_example :
    (t : List ℕ) × (get_token request 2 (zeros 512) 1024 0
      ≡ ok (record { len = some 7; token = t }))
    × (c_string t ≡ codes "/a.html")
    × (length t ≡ length (zeros 512))
unfolding words words_from zeros
get_token-word_example =
    get_token-word request (zeros 512) 1 1024 0 511 (codes "/a.html") (omega arith) (omega arith)
      (omega arith, (omega arith, tt)) refl

get_token-TokenSafe_example : TokenSafe (length (zeros 32)) (get_token request 1 (zeros 32) 32 b':')
unfolding zeros
get_token-TokenSafe_example =
    get_token-TokenSafe request (zeros 32) 1 32 b':' (omega arith) (omega arith)

send_block-Delivered_example :
    Delivered chunked received [] (take 4 (codes "hello")) (send_block chunked [] (codes "hello") 4)
send_block-Delivered_example =
    send_block-Delivered chunked-IsWriter [] (codes "hello") 4 (omega arith)

abbrev calendar : Calendar
calendar = record {
  date = λ t. codes "Date: now\r\n";
  last_modified = λ t. codes "Last-Modified: then\r\n";
}

calendar-IsCalendar : IsCalendar calendar
calendar-IsCalendar = record { date_text = λ t. omega arith; modified_text = λ t. omega arith }

-- One file, which every path finds.
abbrev files : List ℕ → Option FileData
files path = some (record { content = codes "<P>"; mtime = 3 })

abbrev locals : Locals
locals = record {
  retval = unset;
  buf = crlf;
  method = codes "GET" ++ (0 ∷ []);
  headline = request;
  request_header = [];
  title = [];
  value = [];
  is_first = false;
}

request-HasTarget : HasTarget request (codes "/a.html")
unfolding words words_from
request-HasTarget = record {
  short = (omega arith, (omega arith, tt));
  target = refl;
  component = (codes "a.html", [], refl, omega arith);
}

answer-get_example :
    (t : List ℕ) × (answer chunked calendar files 5 locals []
      ≡ ok (reply_verdict unset (files (codes "./a.html")), t))
    × (t ≡ [] ++ reply_bytes calendar 5 (files (codes "./a.html")))
answer-get_example =
    answer-get chunked-IsWriter chunked-IsReliable calendar calendar-IsCalendar files 5 locals
      (codes "/a.html") [] (inl refl) request-HasTarget

html-IsTarget : IsTarget (codes "/a.html")
unfolding words words_from
html-IsTarget = record {
  tokens = (refl, (refl, (refl, (refl, (refl, (refl, (refl, tt)))))));
  some_byte = omega arith;
  short = omega arith;
  component = (codes "a.html", [], refl, omega arith);
}

-- A request whose second read brings the beginning of another one, and a third read.
abbrev two_reads : List (List ℕ)
two_reads = codes "GET /a.html HT" ∷ codes "TP/1.1\r\n\r\nGET" ∷ codes " /b" ∷ []

httpd-request_example :
    (t : List ℕ) × (left : List (List ℕ)) × (httpd chunked calendar files 5 two_reads []
      ≡ ok (reply_verdict unset (files (codes "./a.html")), t, left))
    × (t ≡ [] ++ reply_bytes calendar 5 (files (codes "./a.html")))
    × Ahead (length (request_line (codes "/a.html")) + 2) two_reads left
unfolding joined
httpd-request_example =
    httpd-request chunked-IsWriter chunked-IsReliable calendar calendar-IsCalendar files 5
      (codes "/a.html") (codes "GET /b") two_reads [] html-IsTarget refl

NoNewline-replicate : (n : ℕ) → NoNewline (replicate n 97)
NoNewline-replicate zero = tt
NoNewline-replicate (suc n) = (refl, NoNewline-replicate n)

httpd-Ends_example :
    Ends (λ r. Unit {0}) (httpd chunked calendar files 5 (codes "GET /a HTTP/1.1\r\n\r\n" ∷ []) [])
httpd-Ends_example =
    httpd-Ends chunked-IsWriter calendar files 5 (codes "GET /a HTTP/1.1\r\n\r\n" ∷ []) []

-- Only one file is there.
abbrev some_files : List ℕ → Option FileData
some_files path =
    if str_eq path (codes "./a.html")
    then some (record { content = codes "<P>"; mtime = 3 })
    else none

abbrev b_reads : List (List ℕ)
b_reads = codes "GET /b.html HTTP/1.1\r\n\r\n" ∷ []

abbrev forks : List (Option ℕ × Fork)
forks = (some 4, forked) ∷ (some 4, fork_failed) ∷ (none, forked) ∷ (some 5, forked) ∷ []
