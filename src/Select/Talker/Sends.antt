-- ===== src/Select/Talker/Sends.antt =====
-- What client3.c sends for the lines that are typed.
use linux_unix_development.Common.{
  ℕ, zero, suc, ◌<◌, ◌≡◌, refl, ap, ◌∙◌, ◌⊎◌, inl, inr, true, false, none, some, List, [], ◌∷◌,
  ◌++◌, append_assoc, length, ok, arith,
}
use linux_unix_development.Common.Bytes.{codes, c_string, str_eq, NoNul}
use linux_unix_development.Common.Strings.{line}
use linux_unix_development.Common.Strings.Lines.{NoNewline, line-whole}
use linux_unix_development.Select.Talker.{
  Net, address, create_socket, connect_socket, tcp_send, talk_loop, client3_main,
}

-- A line without its newline: it fits in the buffer and is not the end.
pub record Spoken (x : List ℕ) : Type 0 where
  pub short : length x < 1023
  pub one_line : NoNewline x
  pub clean : NoNul x
  pub no_quit : str_eq (x ++ (10 ∷ [])) (codes "quit\n") ≡ false

abbrev pub AllSpoken : List (List ℕ) → Type 0
AllSpoken [] = Unit
AllSpoken (x ∷ xs) = Spoken x × AllSpoken xs

-- The lines with their newlines, and as a text with `rest` behind it.
abbrev pub messages : List (List ℕ) → List (List ℕ)
messages [] = []
messages (x ∷ xs) = (x ++ (10 ∷ [])) ∷ messages xs

abbrev pub typed : List (List ℕ) → List ℕ → List ℕ
typed [] rest = rest
typed (x ∷ xs) rest = x ++ (10 ∷ typed xs rest)

pub c_string-newline : (x : List ℕ) → NoNul x → c_string (x ++ (10 ∷ [])) ≡ x ++ (10 ∷ [])
c_string-newline [] h = refl
c_string-newline (c ∷ x) h = ground (arith, h.0, c_string-newline x h.1)

-- The server is reached, by its address or by its name, and send works.
pub record Reaches (net : Net) (server : List ℕ) : Type 0 where
  pub sock : ℕ
  pub addr : ℕ
  pub opens : net.socket ≡ some sock
  pub known :
      (net.inet_addr server ≡ some addr)
      ⊎ ((net.inet_addr server ≡ none) × (net.gethostbyname server ≡ some addr))
  pub connects : net.connect addr 15000 ≡ true
  pub sends : (x : List ℕ) → net.send x ≡ true

connect_socket-Reaches :
    (net : Net) (server : List ℕ) (r : Reaches net server)
    → connect_socket net server 15000 ≡ ok r.addr
unfolding connect_socket address
connect_socket-Reaches net server r = elim r.known [
  | inl e ↦ rw (e, r.connects) refl
  | inr e ↦ rw (e.0, e.1, r.connects) refl
]

create_socket-Reaches :
    (net : Net) (server : List ℕ) (r : Reaches net server) → create_socket net ≡ ok r.sock
unfolding create_socket
create_socket-Reaches net server r = rw (r.opens) refl

module _ (net : Net) (sends : (x : List ℕ) → net.send x ≡ true) where
  tcp_send-sends : (x : List ℕ) (sent : List (List ℕ)) → tcp_send net x sent ≡ ok (sent ++ (x ∷ []))
  unfolding tcp_send
  tcp_send-sends x sent = rw (sends x) refl

  talk_loop-sends :
      (xs : List (List ℕ)) (rest : List ℕ) (sent : List (List ℕ)) (fuel : ℕ)
      → AllSpoken xs
      → length xs < fuel
      → talk_loop net fuel (typed xs (codes "quit\n" ++ rest)) sent
        ≡ ok (sent ++ (messages xs ++ (codes "quit\n" ∷ [])))
  unfolding talk_loop
  talk_loop-sends xs rest sent zero h l = absurd (omega arith)
  talk_loop-sends [] rest sent (suc fuel) h l =
      let whole : line 1023 (codes "quit\n" ++ rest) ≡ (codes "quit\n", rest) =
        line-whole 1023 (codes "quit") rest (refl, (refl, (refl, (refl, tt)))) (omega arith) in
      rw (whole, tcp_send-sends (codes "quit\n") sent) refl
  talk_loop-sends (x ∷ xs) rest sent (suc fuel) h l =
      rw
        (
          line-whole 1023 x (typed xs (codes "quit\n" ++ rest)) h.0.one_line h.0.short,
          c_string-newline x h.0.clean,
          h.0.no_quit,
          tcp_send-sends (x ++ (10 ∷ [])) sent,
        )
        (talk_loop-sends xs rest (sent ++ ((x ++ (10 ∷ [])) ∷ [])) fuel h.1 (omega arith)
          ∙ ap (λ y. ok y)
              (append_assoc sent ((x ++ (10 ∷ [])) ∷ []) (messages xs ++ (codes "quit\n" ∷ []))))

pub client3_main-sends :
    (net : Net) (name server : List ℕ) (more xs : List (List ℕ)) (rest : List ℕ)
    → Reaches net server
    → AllSpoken xs
    → client3_main net (suc (length xs)) (name ∷ server ∷ more) (typed xs (codes "quit\n" ++ rest))
      ≡ ok (messages xs ++ (codes "quit\n" ∷ []))
unfolding client3_main
client3_main-sends net name server more xs rest r h =
    rw (create_socket-Reaches net server r, connect_socket-Reaches net server r)
      (talk_loop-sends net r.sends xs rest [] (suc (length xs)) h (omega arith))
