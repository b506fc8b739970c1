-- ===== src/Printing/Tests.antt =====
-- The printer service at small texts and process numbers.
use linux_unix_development.Common.{
  ℕ, ◌≡◌, refl, Bool, true, some, List, [], ◌∷◌, ◌++◌, length, length-replicate, replicate, ◌==◌,
  ◌<◌, false, write_out_of_bounds, ok, fault, arith,
}
use linux_unix_development.Common.Bytes.{codes, c_string}
use linux_unix_development.Common.Strings.{zeros, length-zeros}
use linux_unix_development.Common.Decimal.{print, skip_space}
use linux_unix_development.Printing.{request_of, Server, handle, serve_round}
use linux_unix_development.Printing.Mail.{Shell, word, Arrays, mail_main}
use linux_unix_development.Printing.Mail.Sent.{Finds, Asked, ended, mail_text, mail_main-sends}
use linux_unix_development.Printing.Gathered.{Gathers}
use linux_unix_development.Printing.Requests.{Request, request_of-Request}
use linux_unix_development.Printing.Names.{serve_round-answers, handle-overflow}

abbrev all_open : List ℕ → Bool
all_open name = true

-- Whatever the array for the text holds.
abbrev noise : List ℕ
noise = replicate 4096 7

noise-length : length noise ≡ 4096
noise-length = length-replicate {A = ℕ} 4096 7

abbrev server : Server
server = record { puffer = zeros 4096; pid = zeros 6; printed = []; answered = [] }

serve_round-answers_example :
    (name : List ℕ) × (bytes : List ℕ) × (t : Server) × (request_of 421 noise noise (codes "a\n")
      ≡ ok (name, bytes))
    × (serve_round true all_open server (some bytes) ≡ ok t)
    × (t.printed ≡ [] ++ (c_string bytes ∷ []))
    × (t.answered ≡ [] ++ (name ∷ []))
unfolding zeros print
serve_round-answers_example =
    serve_round-answers 421 noise noise (codes "a\n") all_open server 0 (0 ∷ []) (omega arith)
      noise-length noise-length (omega arith) (length-zeros 4096) refl refl refl

abbrev request_99 : Request 99 noise noise (codes "a\n")
request_99 =
    request_of-Request 99 noise noise (codes "a\n") (omega arith) noise-length noise-length
      (omega arith)

abbrev request_421 : Request 421 noise noise (codes "b\n")
request_421 =
    request_of-Request 421 noise noise (codes "b\n") (omega arith) noise-length noise-length
      (omega arith)

handle-overflow_example :
    handle true all_open server (print 31337 ++ (10 ∷ codes "a\n" ++ (0 ∷ [])))
    ≡ fault write_out_of_bounds
unfolding print
handle-overflow_example =
    handle-overflow 31337 (codes "a\n" ++ (0 ∷ [])) all_open server (omega arith) (length-zeros 6)
      (omega arith)

abbrev shell : Shell
shell = record { which = some (codes "/bin/sendmail\n"); runs = λ command. true }

mailer : Finds shell (codes "/bin/sendmail")
unfolding word skip_space
mailer = record {
  out = codes "/bin/sendmail\n";
  c = b'/';
  cs = codes "bin/sendmail";
  shape = refl;
  prints = refl;
  first = refl;
  clean = omega arith;
  short = omega arith;
  starts = refl;
}

abbrev arrays : Arrays
arrays = record {
  to = zeros 255;
  from = zeros 255;
  sub = zeros 255;
  inhalt = zeros 8192;
  puffer = zeros 255;
  pfad = zeros 255;
}

asked : (x : ℕ) → 0 < x → (x == 10) ≡ false → Asked (x ∷ [])
asked x p h = record { short = omega arith; one_line = (h, tt); clean = (p, tt) }

mail_main-sends_example :
    (text : List ℕ) × (rest : List ℕ) × (mail_main shell arrays (codes "a\nb\nc\nd\n")
      ≡ ok (
        codes "/bin/sendmail -oi -t",
        mail_text (ended (codes "b")) (ended (codes "a")) (codes "c") text,
      ))
    × Gathers 8192 [] (codes "d\n") text rest
mail_main-sends_example =
    mail_main-sends shell arrays (codes "/bin/sendmail") (codes "a") (codes "b") (codes "c")
      (codes "d\n") mailer (length-zeros 255) (length-zeros 255) (length-zeros 255)
      (length-zeros 8192) (length-zeros 255) (length-zeros 255) (asked 97 (omega arith) refl)
      (asked 98 (omega arith) refl) (asked 99 (omega arith) refl) (omega arith)
