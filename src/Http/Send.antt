-- ===== src/Http/Send.antt =====
-- SendBlock, SendBuf and SendHTTPHeader of 11_Network/select/http_server.c over any writer.
pub mod Delivery
use linux_unix_development.Common.{
  ℕ, zero, suc, ◌+◌, ◌-◌, ◌≤◌, ◌<◌, ◌≡◌, Bool, true, false, Option, none, some, List, [], ◌∷◌, ◌++◌,
  ltb, length, take, drop, Outcome, ok, fault, out_of_fuel, ◌>>=◌,
}
use linux_unix_development.Common.Bytes.{c_string}
use linux_unix_development.System.Writer.{Status, success, failure, Writer}

module _ (w : Writer) where
  open w use {Conn, send}

  -- `while (size > 0)`, with `r` the part of the buffer that is left.
  unfoldable pub send_block_loop :
      (fuel : ℕ) (s : Conn) (r : List ℕ) (size : ℕ) → Outcome (Status × Conn)
  send_block_loop zero s r size = out_of_fuel
  send_block_loop (suc fuel) s r size = elim (ltb 0 size) [
    | false ↦ ok (success, s)
    | true ↦
        let (len, s') = send s (take size r) in
        elim len [
          | none ↦ ok (failure, s')
          | some n ↦ send_block_loop fuel s' (drop n r) (size - n)
        ]
  ]

  unfoldable pub send_block : Conn → List ℕ → ℕ → Outcome (Status × Conn)
  send_block s buf size = send_block_loop (suc size) s buf size

  -- `while (rlen > 0)`: each round offers the string that is left.
  pub send_buf_loop : (fuel : ℕ) (s : Conn) (r : List ℕ) (rlen : ℕ) → Outcome (Status × Conn)
  send_buf_loop zero s r rlen = out_of_fuel
  send_buf_loop (suc fuel) s r rlen = elim (ltb 0 rlen) [
    | false ↦ ok (success, s)
    | true ↦
        let (len, s') = send s (c_string r) in
        elim len [ none ↦ ok (failure, s') | some n ↦ send_buf_loop fuel s' (drop n r) (rlen - n) ]
  ]

  pub send_buf : Conn → List ℕ → Outcome (Status × Conn)
  send_buf s buf = send_buf_loop (suc (length (c_string buf))) s buf (length (c_string buf))
