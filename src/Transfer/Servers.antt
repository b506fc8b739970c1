-- ===== src/Transfer/Servers.antt =====
-- The mains of the three servers and of the client: sockets, fork and threads around the work on one
-- connection.
pub mod Serve
use linux_unix_development.Common.{
  ℕ, zero, suc, Bool, true, false, ◌&&◌, Option, none, some, List, [], ◌∷◌, ltb, if◌then◌else◌,
  Outcome, ok, exit, ◌>>=◌, ◌>>◌,
}
use linux_unix_development.System.Writer.{Writer}
use linux_unix_development.System.Reader.{Reader}
use linux_unix_development.Transfer.{Served, copy_or_close, copy_on, Offered, send_file}

-- The calls before the loop, in their order: socket, bind and listen.
pub record Setup : Type 0 where
  pub sockets : Bool
  pub binds : Bool
  pub listens : Bool

-- server2.c, pserver.c and thserver.c end with EXIT_FAILURE at the first call that fails.
pub prepare : Setup → Outcome (Unit {0})
prepare s = if s.sockets && s.binds && s.listens then ok tt else exit 1

-- What accept gives: a connection, or a failure that is EINTR or is not. With a connection go the bytes
-- that the two arrays hold then, which nothing clears: the first connection finds what stands there at
-- the start, a later one what those before it left.
pub data Accepted (r : Reader) : Type 0 where
  connection : r.Source → (path_file puffer : List ℕ) → Accepted r
  interrupted failed : Accepted r

-- The arguments that every connection shares: fuel, HOME, and open.
pub record Context (w : Writer) : Type 0 where
  pub fuel : ℕ
  pub home : List ℕ
  pub opens : List ℕ → Option w.Conn

module _ (r : Reader) (w : Writer) (c : Context w) where
  -- The work of server2.c and of the child of pserver.c.
  pub work : r.Source → (path_file puffer : List ℕ) → Outcome (Served r w)
  work s path_file puffer = copy_or_close r w c.fuel c.home path_file puffer c.opens s

  -- The work of a thread.
  pub thread_work : r.Source → (path_file puffer : List ℕ) → Outcome (Served r w)
  thread_work s path_file puffer = copy_on r w c.fuel c.home path_file puffer c.opens s

  -- The loop of server2.c, one connection behind the other; any failure of accept ends it. The list
  -- of what accept gives ends where the server waits.
  pub server2_loop : List (Accepted r) → Outcome (List (Served r w))
  server2_loop [] = ok []
  server2_loop (connection s p q ∷ cs) =
      let rest = server2_loop cs in work s p q >>= λ x. rest >>= λ xs. ok (x ∷ xs)
  server2_loop (interrupted ∷ cs) = exit 1
  server2_loop (failed ∷ cs) = exit 1

  pub server2_main : Setup → List (Accepted r) → Outcome (List (Served r w))
  server2_main s cs = prepare s >> server2_loop cs

  -- What a child of pserver.c does: behind the copy it does not exit but goes back to accept, on the
  -- listening socket that it has closed.
  pub child : r.Source → (path_file puffer : List ℕ) → Outcome (Served r w)
  child s path_file puffer = work s path_file puffer >>= λ x. exit 1

  -- The parent of pserver.c: it goes on after EINTR, and leaves each connection to a child. It gives
  -- the outcomes of the children.
  pub pserver_loop : List (Accepted r) → Outcome (List (Outcome (Served r w)))
  pserver_loop [] = ok []
  pserver_loop (connection s p q ∷ cs) = pserver_loop cs >>= λ xs. ok (child s p q ∷ xs)
  pserver_loop (interrupted ∷ cs) = pserver_loop cs
  pserver_loop (failed ∷ cs) = exit 1

  pub pserver_main : Setup → List (Accepted r) → Outcome (List (Outcome (Served r w)))
  pserver_main s cs = prepare s >> pserver_loop cs

  -- thserver.c, where each connection's thread runs before the next is accepted: exit in a thread
  -- ends the process.
  pub thserver_loop : List (Accepted r) → Outcome (List (Served r w))
  thserver_loop [] = ok []
  thserver_loop (connection s p q ∷ cs) =
      let rest = thserver_loop cs in thread_work s p q >>= λ x. rest >>= λ xs. ok (x ∷ xs)
  thserver_loop (interrupted ∷ cs) = thserver_loop cs
  thserver_loop (failed ∷ cs) = exit 1

  pub thserver_main : Setup → List (Accepted r) → Outcome (List (Served r w))
  thserver_main s cs = prepare s >> thserver_loop cs

-- A file of the client's command line: whether socket and connect succeed, its name, what open gives,
-- and the connection.
pub record Job (r : Reader) (w : Writer) : Type 0 where
  pub sockets : Bool
  pub connects : Bool
  pub file : List ℕ
  pub source : Option r.Source
  pub conn : w.Conn

module _ (r : Reader) (w : Writer) (fuel : ℕ) (puffer : List ℕ) where
  -- The loop of client2.c over its files.
  pub client_loop : List (Job r w) → Outcome (List (Offered w))
  client_loop [] = ok []
  client_loop (j ∷ js) =
      let sent = send_file r w fuel puffer j.file j.source j.conn in
      let both = (sent >>= λ x. client_loop js >>= λ xs. ok (x ∷ xs)) in
      if j.sockets && j.connects then both else exit 1

  -- main of client2.c: `found` is whether the host's address is known.
  pub client_main : (argc : ℕ) (found : Bool) → List (Job r w) → Outcome (List (Offered w))
  client_main argc found js =
      if ltb argc 3 then exit 1 else if found then client_loop js else exit 1
