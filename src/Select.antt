-- ===== src/Select.antt =====
-- 11_Network/select/multi_server.c: one process serves many clients, which it waits for with
-- select. The table has as many entries as FD_SETSIZE says, here the length of the list.
pub mod Table
pub mod PassOver
pub mod Round
pub mod Closed
pub mod Talker
mod Tests
use linux_unix_development.Common.{
  ℕ, zero, suc, ◌+◌, ◌-◌, Bool, true, false, ◌&&◌, Option, none, some, List, [], ◌∷◌, ltb, leb,
  ◌==◌, if◌then◌else◌, Outcome, ok, exit, ◌>>=◌,
}
use linux_unix_development.Common.Bytes.{codes, c_string, str_eq}

-- What happens to a client.
pub data Event : Type 0 where
  -- A message is printed.
  received : ℕ → List ℕ → Event
  -- close_socket
  closed : ℕ → Event

-- The variables of main. A free entry of `client_sock`, -1 in the source, is `none`; `top` is max + 1,
-- and `log` is what happened to the clients, the last event first.
pub record State : Type 0 where
  pub client_sock : List (Option ℕ)
  pub gesamt_sock : ℕ → Bool
  pub sock_max : ℕ
  pub top : ℕ
  pub log : List Event

-- FD_SET and FD_CLR.
abbrev pub fd_set : ℕ → (ℕ → Bool) → ℕ → Bool
fd_set fd set q = if q == fd then true else set q

abbrev pub fd_clr : ℕ → (ℕ → Bool) → ℕ → Bool
fd_clr fd set q = if q == fd then false else set q

-- The loop that looks for a free entry: the table with the descriptor in it, and the index of the
-- entry, or `none` where the loop ends at FD_SETSIZE.
pub place : ℕ → List (Option ℕ) → Option (List (Option ℕ) × ℕ)
place fd [] = none
place fd (none ∷ t) = some (some fd ∷ t, 0)
place fd (some g ∷ t) = behind (place fd t)
  where
    behind : Option (List (Option ℕ) × ℕ) → Option (List (Option ℕ) × ℕ)
    behind none = none
    behind (some (t', i)) = some (some g ∷ t', suc i)

-- The branch for the listening socket, on what accept gives.
pub admit : Option ℕ → State → Outcome State
admit none s = exit 1
admit (some sock2) s = placed (place sock2 s.client_sock)
  where
    placed : Option (List (Option ℕ) × ℕ) → Outcome State
    placed none = exit 1
    placed (some (t, i)) = ok (record {
      client_sock = t;
      gesamt_sock = fd_set sock2 s.gesamt_sock;
      sock_max = if ltb s.sock_max sock2 then sock2 else s.sock_max;
      top = if leb s.top i then suc i else s.top;
      log = s.log;
    })

-- TCP_recv: the string in the buffer. recv gives at most BUF - 1 bytes, and none at the end of the
-- connection; `none` is -1.
pub tcp_recv : Option (List ℕ) → Outcome (List ℕ)
tcp_recv none = exit 1
tcp_recv (some x) = ok (c_string x)

-- What a pass over the table leaves.
pub record Pass : Type 0 where
  pub table : List (Option ℕ)
  pub set : ℕ → Bool
  pub log : List Event

-- The loop over the clients: `n` entries are left to look at, `ready` descriptors to serve.
module _ (lese_sock : ℕ → Bool) (recv : ℕ → Option (List ℕ)) where
  -- The loop with the rest of the table.
  pub serve : (n ready : ℕ) → List (Option ℕ) → (ℕ → Bool) → List Event → Outcome Pass
  serve zero ready t set log = ok (record { table = t; set = set; log = log })
  serve (suc n) ready [] set log = ok (record { table = []; set = set; log = log })
  serve (suc n) ready (none ∷ t) set log =
      serve n ready t set log >>= λ p. ok (record p { table = none ∷ p.table })
  serve (suc n) ready (some fd ∷ t) set log =
      let skipped =
        (serve n ready t set log >>= λ p. ok (record p { table = some fd ∷ p.table })) in
      let served = (do
        x ← tcp_recv (recv fd)
        let quit = str_eq x (codes "quit\n")
        let log' = if quit then closed fd ∷ received fd x ∷ log else received fd x ∷ log
        let entry = if quit then none else some fd
        let set' = if quit then fd_clr fd set else set
        let rest = serve n (ready - 1) t set' log'
        let last = ok (record { table = entry ∷ t; set = set'; log = log' })
        if leb ready 1 then last else rest >>= λ p. ok (record p { table = entry ∷ p.table })) in
      if lese_sock fd then served else skipped

-- What select and the calls behind it give in a round.
pub record Events : Type 0 where
  pub lese_sock : ℕ → Bool
  pub ready : ℕ
  pub accepted : Option ℕ
  pub recv : ℕ → Option (List ℕ)

-- The pass over the clients.
pub clients : Events → ℕ → State → Outcome State
clients e ready s = serve e.lese_sock e.recv s.top ready s.client_sock s.gesamt_sock s.log >>= λ p.
    ok (record s { client_sock = p.table; gesamt_sock = p.set; log = p.log })

-- `if (--ready <= 0) continue;`, and otherwise the pass over the clients.
pub admitted : Events → State → Outcome State
admitted e t = let rest = clients e (e.ready - 1) t in if leb e.ready 1 then ok t else rest

-- The body of the server's loop. A failed select leaves `ready` at -1, which acts as 0 does.
pub round : (sock1 : ℕ) → Events → State → Outcome State
round sock1 e s =
    let new = admit e.accepted s >>= admitted e in
    if e.lese_sock sock1 then new else clients e e.ready s
