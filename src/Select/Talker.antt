-- ===== src/Select/Talker.antt =====
-- 11_Network/select/client3.c: lines from stdin for the server.
pub mod Sends
pub mod Heard
use linux_unix_development.Common.{
  ℕ, zero, suc, ◌-◌, Bool, true, false, Option, none, some, List, [], ◌∷◌, ◌++◌, leb, ltb, length,
  if◌then◌else◌, Outcome, ok, exit, out_of_fuel, ◌>>=◌,
}
use linux_unix_development.Common.Bytes.{codes, c_string, str_eq}
use linux_unix_development.Common.Strings.{line, store}

-- The network: what socket gives, the address that a text stands for, the host that a name stands for,
-- and whether connect and send work.
pub record Net : Type 0 where
  pub socket : Option ℕ
  pub inet_addr : List ℕ → Option ℕ
  pub gethostbyname : List ℕ → Option ℕ
  pub connect : (addr port : ℕ) → Bool
  pub send : List ℕ → Bool

-- create_socket
pub create_socket : Net → Outcome ℕ
create_socket net = elim net.socket [ none ↦ exit 1 | some sock ↦ ok sock ]

-- The address for what inet_addr and gethostbyname give.
pub address : Option ℕ → Option ℕ → Outcome ℕ
address (some addr) host = ok addr
address none none = exit 1
address none (some addr) = ok addr

-- connect_socket: the address that is connected.
pub connect_socket : Net → List ℕ → ℕ → Outcome ℕ
connect_socket net serv_addr port =
    address (net.inet_addr serv_addr) (net.gethostbyname serv_addr) >>= λ addr.
    if net.connect addr port then ok addr else exit 1

-- TCP_send; `sent` is what was sent before.
pub tcp_send : Net → List ℕ → List (List ℕ) → Outcome (List (List ℕ))
tcp_send net text sent = if net.send text then ok (sent ++ (text ∷ [])) else exit 1

-- What fgets leaves in the buffer whose first byte was set to NUL.
abbrev pub fill : List ℕ → List ℕ
fill input = c_string (line 1023 input).0

-- The loop: the messages that are sent. A round takes a line off the input.
pub talk_loop : Net → (fuel : ℕ) → (input : List ℕ) → List (List ℕ) → Outcome (List (List ℕ))
talk_loop net zero input sent = out_of_fuel
talk_loop net (suc fuel) input sent =
    let text = fill input in
    let next = tcp_send net text sent >>= talk_loop net fuel (line 1023 input).1 in
    let last = tcp_send net text sent in if str_eq text (codes "quit\n") then last else next

-- main on its arguments.
pub client3_main : Net → (fuel : ℕ) → List (List ℕ) → (input : List ℕ) → Outcome (List (List ℕ))
client3_main net fuel [] input = exit 1
client3_main net fuel (name ∷ []) input = exit 1
client3_main net fuel (name ∷ server ∷ more) input = do
  sock ← create_socket net
  addr ← connect_socket net server 15000
  talk_loop net fuel input []
