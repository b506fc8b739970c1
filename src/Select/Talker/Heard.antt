-- ===== src/Select/Talker/Heard.antt =====
-- The client of client3.c and the server of multi_server.c.
use linux_unix_development.Common.{
  ℕ, zero, suc, ◌≡◌, ◌≢◌, refl, ◌⊎◌, inl, inr, Bool, false, Option, none, some, List, [], ◌∷◌, ◌++◌,
  length, ◌==◌, ==_iff, Bool-cases, if◌then◌else◌, Outcome, ok, ◌>>=◌, arith,
}
use linux_unix_development.Common.Bytes.{codes, c_string, str_eq}
use linux_unix_development.Select.{
  Event, received, closed, State, fd_clr, tcp_recv, Pass, serve, Events, clients, round,
}
use linux_unix_development.Select.Talker.{Net, client3_main}
use linux_unix_development.Select.Talker.Sends.{
  AllSpoken, messages, typed, c_string-newline, Reaches, client3_main-sends,
}

-- The descriptor stands at one of the first `n` entries.
abbrev pub At : ℕ → ℕ → List (Option ℕ) → Type 0
At fd zero t = ⊥
At fd (suc n) [] = ⊥
At fd (suc n) (none ∷ t) = At fd n t
At fd (suc n) (some g ∷ t) = (g ≡ fd) ⊎ At fd n t

-- The table without it.
abbrev pub take_out : ℕ → List (Option ℕ) → List (Option ℕ)
take_out fd [] = []
take_out fd (none ∷ t) = none ∷ take_out fd t
take_out fd (some g ∷ t) = let rest = take_out fd t in if g == fd then none ∷ t else some g ∷ rest

abbrev is_quit : List ℕ → Bool
is_quit x = str_eq (c_string x) (codes "quit\n")

-- What the server has after the message `x` of `fd`, where `out` is the table without `fd`.
abbrev after : ℕ → List ℕ → (out t : List (Option ℕ)) → (ℕ → Bool) → List Event → Pass
after fd x out t set log = record {
  table = if is_quit x then out else t;
  set = if is_quit x then fd_clr fd set else set;
  log =
      if is_quit x
      then closed fd ∷ received fd (c_string x) ∷ log
      else received fd (c_string x) ∷ log;
}

after-cons :
    (entry : Option ℕ) (fd : ℕ) (x : List ℕ) (out t : List (Option ℕ)) (set : ℕ → Bool)
    (log : List Event)
    → ok (record (after fd x out t set log) { table = entry ∷ (after fd x out t set log).table })
      ≡ ok (after fd x (entry ∷ out) (entry ∷ t) set log)
after-cons entry fd x out t set log = elim (Bool-cases (is_quit x)) [
  | inl e ↦ rw e refl
  | inr e ↦ rw e refl
]

serve-hears :
    (fd : ℕ) (x : List ℕ) (n : ℕ) (t : List (Option ℕ)) (set : ℕ → Bool) (log : List Event)
    → At fd n t
    → serve (λ q. q == fd) (λ q. some x) n 1 t set log ≡ ok (after fd x (take_out fd t) t set log)
unfolding serve tcp_recv
serve-hears fd x zero t set log h = absurd h
serve-hears fd x (suc n) [] set log h = absurd h
serve-hears fd x (suc n) (none ∷ t) set log h =
    rw (serve-hears fd x n t set log h) (after-cons none fd x (take_out fd t) t set log)
serve-hears fd x (suc n) (some g ∷ t) set log h = elim (Bool-cases (g == fd)) [
  | inl e ↦
      let same : g ≡ fd = (==_iff g fd).0 e in
      elim (Bool-cases (is_quit x)) [ inl q ↦ rw (e, q, same) refl | inr q ↦ rw (e, q, same) refl ]
  | inr e ↦
      rw (e, serve-hears fd x n t set log (elsewhere e h))
        (after-cons (some g) fd x (take_out fd t) t set log)
]
  where
    elsewhere : (g == fd) ≡ false → (g ≡ fd) ⊎ At fd n t → At fd n t
    elsewhere e (inl s) = ground (arith, s, e)
    elsewhere e (inr a) = a

-- Only `fd` has sent something, the message `x`.
abbrev pub event : ℕ → List ℕ → Events
event fd x = record { lese_sock = λ q. q == fd; ready = 1; accepted = none; recv = λ q. some x }

-- The rounds in which the messages of `fd` arrive, each as it was sent.
abbrev pub hear : (sock1 fd : ℕ) → List (List ℕ) → State → Outcome State
hear sock1 fd [] s = ok s
hear sock1 fd (x ∷ xs) s = round sock1 (event fd x) s >>= hear sock1 fd xs

abbrev heard : ℕ → List ℕ → State → State
heard fd x s =
    let p = after fd x (take_out fd s.client_sock) s.client_sock s.gesamt_sock s.log in
    record s { client_sock = p.table; gesamt_sock = p.set; log = p.log }

round-hears :
    (sock1 fd : ℕ) (x : List ℕ) (s : State)
    → sock1 ≢ fd
    → At fd s.top s.client_sock
    → round sock1 (event fd x) s ≡ ok (heard fd x s)
unfolding round clients
round-hears sock1 fd x s d h =
    let other : (sock1 == fd) ≡ false = ground (arith, d) in
    rw (other, serve-hears fd x s.top s.client_sock s.gesamt_sock s.log h) refl

-- The lines as the server prints them, the last first.
abbrev pub said : ℕ → List (List ℕ) → List Event → List Event
said fd [] log = log
said fd (x ∷ xs) log = said fd xs (received fd (x ++ (10 ∷ [])) ∷ log)

hear-messages :
    (sock1 fd : ℕ) (xs : List (List ℕ)) (s : State)
    → sock1 ≢ fd
    → At fd s.top s.client_sock
    → AllSpoken xs
    → hear sock1 fd (messages xs ++ (codes "quit\n" ∷ [])) s
      ≡ ok (record s {
        client_sock = take_out fd s.client_sock;
        gesamt_sock = fd_clr fd s.gesamt_sock;
        log = closed fd ∷ received fd (codes "quit\n") ∷ said fd xs s.log;
      })
hear-messages sock1 fd [] s d h a = rw (round-hears sock1 fd (codes "quit\n") s d h) refl
hear-messages sock1 fd (x ∷ xs) s d h a =
    let same = c_string-newline x a.0.clean in
    let quiet : is_quit (x ++ (10 ∷ [])) ≡ false = rw same a.0.no_quit in
    rw (round-hears sock1 fd (x ++ (10 ∷ [])) s d h, quiet, same)
      (hear-messages sock1 fd xs (record s { log = received fd (x ++ (10 ∷ [])) ∷ s.log }) d h a.1)

-- The client and the server together: if the server is reached, send works and lines are typed that
-- fit in the buffer and hold no NUL, then a line "quit", the client ends; and a server with this client in its table,
-- which gets each message by itself as it was sent and nothing from others, prints each line, in
-- order, closes the connection, and takes the client out of its table and of the set of select.
pub client3_main-heard :
    (net : Net) (name server : List ℕ) (more xs : List (List ℕ)) (rest : List ℕ) (sock1 fd : ℕ)
    (s : State)
    → Reaches net server
    → AllSpoken xs
    → sock1 ≢ fd
    → At fd s.top s.client_sock
    → (client3_main net (suc (length xs)) (name ∷ server ∷ more) (typed xs (codes "quit\n" ++ rest))
        >>= λ sent. hear sock1 fd sent s)
      ≡ ok (record s {
        client_sock = take_out fd s.client_sock;
        gesamt_sock = fd_clr fd s.gesamt_sock;
        log = closed fd ∷ received fd (codes "quit\n") ∷ said fd xs s.log;
      })
client3_main-heard net name server more xs rest sock1 fd s r a d h =
    rw (client3_main-sends net name server more xs rest r a) (hear-messages sock1 fd xs s d h a)
