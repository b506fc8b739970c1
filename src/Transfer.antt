-- ===== src/Transfer.antt =====
-- Files sent over a connection: 11_Network/parallel_server/client2.c sends, and
-- 11_Network/parallel_server/server2.c, pserver.c beside it and 11_Network/thserver.c receive.
pub mod Name
pub mod Content
pub mod Received
pub mod Sent
pub mod Servers
mod Tests
use linux_unix_development.Common.{
  ℕ, zero, suc, ◌+◌, Bool, true, false, Option, none, some, List, [], ◌∷◌, ◌++◌, ltb, ◌==◌,
  if◌then◌else◌, length, set, write_out_of_bounds, Outcome, ok, exit, out_of_fuel, ◌>>=◌, ◌>>◌,
  check,
}
use linux_unix_development.Common.Bytes.{codes, c_string}
use linux_unix_development.Common.Strings.{strcpy, strcat}
use linux_unix_development.System.Writer.{Writer}
use linux_unix_development.System.Reader.{Reader}

module _ (r : Reader) where
  -- What follows a read of one byte to `&puffer[j]`; `next` is the loop.
  pub name_round :
      (next : List ℕ → r.Source → Outcome (List ℕ × r.Source)) (j : ℕ) (puffer : List ℕ)
      → Option (List ℕ) × r.Source
      → Outcome (List ℕ × r.Source)
  name_round next j puffer (none, s) = exit 1
  name_round next j puffer (some [], s) = ok (puffer, s)
  name_round next j puffer (some (c ∷ cs), s) =
      let rest = next (set puffer j c) s in
      check (ltb j (length puffer)) write_out_of_bounds
      >> (if c == 10 then ok (set puffer j 0, s) else rest)

  -- The loop that reads the file's name byte by byte into `puffer`, up to a newline, which is
  -- overwritten by NUL, or up to the end of the stream.
  pub read_name : (fuel j : ℕ) (puffer : List ℕ) → r.Source → Outcome (List ℕ × r.Source)
  unfolding name_round
  read_name zero j puffer s = out_of_fuel
  read_name (suc fuel) j puffer s = name_round (read_name fuel (j + 1)) j puffer (r.read s 1)

-- Where the file goes: `path_file` is the home directory, "/tmp/" and the name.
pub target_path : (home path_file puffer : List ℕ) → Outcome (List ℕ)
target_path home path_file puffer = do
  p ← strcpy path_file home
  p ← strcat p (codes "/tmp/")
  strcat p puffer

module _ (w : Writer) where
  -- write on a file, or on the descriptor -1.
  pub put : Option w.Conn → List ℕ → Option ℕ × Option w.Conn
  put none x = (none, none)
  put (some t) x = let (n, t') = w.send t x in (n, some t')

  -- Whether write took everything.
  pub took_all : Option ℕ → ℕ → Bool
  took_all none n = false
  took_all (some k) n = k == n

module _ (r : Reader) (w : Writer) where
  -- What follows a read of the content; `next` is the loop, and `ngesammt` the number of bytes.
  pub content_round :
      (next : ℕ → r.Source → Option w.Conn → Outcome (ℕ × r.Source × Option w.Conn)) (ngesammt : ℕ)
      (t : Option w.Conn)
      → Option (List ℕ) × r.Source
      → Outcome (ℕ × r.Source × Option w.Conn)
  content_round next ngesammt t (none, s) = exit 1
  content_round next ngesammt t (some [], s) = ok (ngesammt, s, t)
  content_round next ngesammt t (some (c ∷ cs), s) =
      let (n, t') = put w t (c ∷ cs) in
      let rest = next (ngesammt + length (c ∷ cs)) s t' in
      if took_all w n (length (c ∷ cs)) then rest else exit 1

  -- `while ((n = read(connfd, puffer, sizeof(puffer))) > 0)`
  pub store_content :
      (fuel size ngesammt : ℕ) → r.Source → Option w.Conn → Outcome (ℕ × r.Source × Option w.Conn)
  store_content zero size ngesammt s t = out_of_fuel
  store_content (suc fuel) size ngesammt s t =
      content_round (store_content fuel size) ngesammt t (r.read s size)

  -- What one connection leads to: the file could not be opened, or it holds what came.
  pub data Served : Type 0 where
    not_opened : List ℕ → Served
    stored : List ℕ → ℕ → Option w.Conn → Served

  -- The name and the path, as all three servers compute them.
  pub read_path :
      (fuel : ℕ) (home path_file puffer : List ℕ) → r.Source → Outcome (List ℕ × r.Source)
  read_path fuel home path_file puffer s = do
    (p, s') ← read_name r fuel 0 puffer s
    path ← target_path home path_file p
    ok (c_string path, s')

  -- server2.c, and the child of pserver.c: a connection whose file cannot be opened is given up.
  pub copy_or_close :
      (fuel : ℕ) (home path_file puffer : List ℕ)
      → (List ℕ → Option w.Conn)
      → r.Source
      → Outcome Served
  copy_or_close fuel home path_file puffer opens s =
      read_path fuel home path_file puffer s >>= λ (path, s'). opened path s' (opens path)
    where
      opened : List ℕ → r.Source → Option w.Conn → Outcome Served
      opened path s' none = ok (not_opened path)
      opened path s' (some t) = do
        (n, s'', t') ← store_content fuel (length puffer) 0 s' (some t)
        ok (stored path n t')

  -- copy of thserver.c: it goes on with the descriptor -1.
  pub copy_on :
      (fuel : ℕ) (home path_file puffer : List ℕ)
      → (List ℕ → Option w.Conn)
      → r.Source
      → Outcome Served
  copy_on fuel home path_file puffer opens s = do
    (path, s') ← read_path fuel home path_file puffer s
    (n, s'', t') ← store_content fuel (length puffer) 0 s' (opens path)
    ok (stored path n t')

-- client2.c: `strrchr(puffer, '/')` and what stands behind it, or all of it.
has_slash : List ℕ → Bool
has_slash [] = false
has_slash (c ∷ cs) = if c == b'/' then true else has_slash cs

pub base_name : List ℕ → List ℕ
unfolding has_slash
base_name [] = []
base_name (c ∷ cs) =
    let rest = base_name cs in if has_slash cs then rest else if c == b'/' then cs else c ∷ cs

-- The name of the file `file` and a newline in `puffer`: what is sent of it.
pub name_line : (puffer file : List ℕ) → Outcome (List ℕ)
name_line puffer file = do
  p ← strcpy puffer file
  p ← strcat p (codes "\n")
  ok (base_name (c_string p))

-- What becomes of one file of the client's command line.
pub data Offered (w : Writer) : Type 0 where
  -- It cannot be opened, or its name was not written whole: the client goes on to the next.
  skipped : Option w.Conn → Offered w
  sent : Option w.Conn → Offered w

module _ (r : Reader) (w : Writer) where
  -- What follows a read of the file; `size` is that of `puffer`, which `puffer[n] = 0` writes to.
  pub send_round :
      (next : r.Source → Option w.Conn → Outcome (Option w.Conn)) (size : ℕ) (t : Option w.Conn)
      → Option (List ℕ) × r.Source
      → Outcome (Option w.Conn)
  send_round next size t (none, s) = exit 1
  send_round next size t (some [], s) = ok t
  send_round next size t (some (c ∷ cs), s) =
      let (n, t') = put w t (c ∷ cs) in
      let rest = next s t' in
      check (ltb (length (c ∷ cs)) size) write_out_of_bounds
      >> (if took_all w n (length (c ∷ cs)) then rest else exit 1)

  -- `while ((n = read(fd, puffer, sizeof(puffer))) > 0)`
  pub send_content : (fuel size : ℕ) → r.Source → Option w.Conn → Outcome (Option w.Conn)
  send_content zero size s t = out_of_fuel
  send_content (suc fuel) size s t = send_round (send_content fuel size) size t (r.read s size)

  -- The body of the loop over the files, behind connect: `t` is the connection, and `source` what
  -- open gives.
  pub send_file : (fuel : ℕ) (puffer file : List ℕ) → Option r.Source → w.Conn → Outcome (Offered w)
  send_file fuel puffer file none t = ok (skipped (some t))
  send_file fuel puffer file (some s) t = name_line puffer file >>= λ help.
      let (n, t') = put w (some t) help in
      let rest = (send_content fuel (length puffer) s t' >>= λ t''. ok (sent t'')) in
      if took_all w n (length help) then rest else ok (skipped t')
