-- ===== src/Printing.antt =====
-- The printer service of 09_IPC: printme.c, sender.c and client.c gather a text from stdin, and
-- server.c answers each request over the FIFO that is named after the client's process.
pub mod Gathered
pub mod Mains
pub mod Answered
pub mod Requests
pub mod Names
pub mod Mail
mod Tests
use linux_unix_development.Common.{
  ℕ, zero, suc, ◌+◌, ◌-◌, Bool, true, false, Option, none, some, List, [], ◌∷◌, ◌++◌, ◌==◌, ltb,
  if◌then◌else◌, length, set, take, drop, read_out_of_bounds, write_out_of_bounds, Outcome, ok,
  fault, exit, out_of_fuel, ◌>>=◌,
}
use linux_unix_development.Common.Bytes.{codes, c_string}
use linux_unix_development.Common.Strings.{store, strcat, line}
use linux_unix_development.Common.Decimal.{print}

-- The loop that adds the lines of stdin to `inhalt` while they fit. `size` is the size of `inhalt`, `room`
-- what fgets is given. What is left of stdin is returned too. One unit of fuel for each byte is enough.
pub gather : (size room fuel : ℕ) → (inhalt puffer input : List ℕ) → Outcome (List ℕ × List ℕ)
gather size room zero inhalt puffer input = out_of_fuel
gather size room (suc fuel) inhalt puffer [] = ok (inhalt, [])
gather size room (suc fuel) inhalt puffer (c ∷ cs) =
    let (x, rest) = line (room - 1) (c ∷ cs) in
    store puffer x >>= λ p.
    let next = strcat inhalt p >>= λ i. gather size room fuel i p rest in
    if ltb (length (c_string inhalt) + length (c_string p)) size then next else ok (inhalt, rest)

-- A write to one place of an array.
abbrev pub put_at : List ℕ → ℕ → ℕ → Outcome (List ℕ)
put_at a i v = if ltb i (length a) then ok (set a i v) else fault write_out_of_bounds

-- main of printme.c: the text that goes to lpr, if popen works. `inhalt` and `puffer` are the arrays,
-- with whatever they hold at the start.
pub printme_main : (popen : Bool) → (inhalt puffer input : List ℕ) → Outcome (List ℕ)
printme_main popen inhalt puffer input = do
  inhalt ← put_at inhalt 0 0
  r ← gather 8192 8192 (suc (length input)) inhalt puffer input
  text ← put_at r.0 8191 0
  if popen then ok (c_string text) else exit 1

-- main of sender.c: the bytes that are written to the FIFO, if it can be opened.
pub sender_main : (opened : Bool) → (inhalt puffer input : List ℕ) → Outcome (List ℕ)
sender_main opened inhalt puffer input = do
  inhalt ← put_at inhalt 0 0
  _ ← (if opened then ok inhalt else exit 1)
  r ← gather 4096 4096 (suc (length input)) inhalt puffer input
  text ← put_at r.0 4095 0
  ok (c_string text ++ (0 ∷ []))

-- The name of a client's FIFO.
abbrev pub fifo_of : ℕ → List ℕ
fifo_of pid = codes "fifo." ++ print pid

-- main of client.c up to the request: the name of its FIFO, and the bytes that it writes. The first
-- line of the request is the number of the process.
pub request_of : (pid : ℕ) → (inhalt puffer input : List ℕ) → Outcome (List ℕ × List ℕ)
request_of pid inhalt puffer input = do
  name ← store puffer (fifo_of pid)
  first ← store inhalt (print pid ++ (10 ∷ []))
  r ← gather 4096 4096 (suc (length input)) first name input
  text ← put_at r.0 4095 0
  ok (c_string name, text)

-- The arrays of server.c, and the FIFOs that it has answered on.
pub record Server : Type 0 where
  pub puffer : List ℕ
  pub pid : List ℕ
  pub printed : List (List ℕ)
  pub answered : List (List ℕ)

-- The text that printf("%s") prints; it reads up to a NUL.
pub text_of : List ℕ → Outcome (List ℕ)
text_of [] = fault read_out_of_bounds
text_of (c ∷ cs) = let more = text_of cs >>= λ t. ok (c ∷ t) in if c == 0 then ok [] else more

-- an_den_drucker: what is printed on stdout. `popens` says whether popen("lpr") works.
pub an_den_drucker : (popens : Bool) → List ℕ → Outcome (List ℕ)
an_den_drucker popens text = let shown = text_of text in if popens then shown else exit 1

-- while (puffer[n] != '\n') pid[i++] = puffer[n++];
pub copy_pid : (rest pid : List ℕ) → ℕ → Outcome (List ℕ × ℕ)
copy_pid [] pid i = fault read_out_of_bounds
copy_pid (c ∷ cs) pid i =
    let next = put_at pid i c >>= λ p. copy_pid cs p (suc i) in
    if c == 10 then ok (pid, i) else next

-- The FIFO of the answer: pid[++i] = '\n', strcpy, strncat(antwort, pid, i).
pub answer_name : (puffer pid : List ℕ) → Outcome (List ℕ × List ℕ)
answer_name puffer pid = do
  (p, i) ← copy_pid puffer pid 0
  p ← put_at p (suc i) 10
  ok (p, codes "fifo." ++ c_string (take (suc i) p))

-- A request in `puffer`: it is printed, and answered on the FIFO of its client. `opens` says which FIFOs
-- can be opened.
pub handle : (popens : Bool) → (opens : List ℕ → Bool) → Server → (puffer : List ℕ) → Outcome Server
handle popens opens s puffer = do
  t ← an_den_drucker popens puffer
  (p, name) ← answer_name puffer s.pid
  let done : Server = record {
    puffer = puffer;
    pid = p;
    printed = s.printed ++ (t ∷ []);
    answered = s.answered ++ (name ∷ []);
  }
  if opens name then ok done else exit 1

-- The body of the loop: `got` is what read gives, `none` for -1.
pub serve_round :
    (popens : Bool) → (opens : List ℕ → Bool) → Server → Option (List ℕ) → Outcome Server
serve_round popens opens s none = handle popens opens s s.puffer
serve_round popens opens s (some []) = ok s
serve_round popens opens s (some (c ∷ cs)) =
    handle popens opens s ((c ∷ cs) ++ drop (length (c ∷ cs)) s.puffer)

-- The loop over what popen and read give in each round.
pub serve_rounds : (opens : List ℕ → Bool) → Server → List (Bool × Option (List ℕ)) → Outcome Server
serve_rounds opens s [] = ok s
serve_rounds opens s ((popens, got) ∷ gots) =
    serve_round popens opens s got >>= λ t. serve_rounds opens t gots
