-- ===== src/Http/Main.antt =====
-- main of 11_Network/select/http_server.c: the setup of the listening socket, the child that serves a
-- connection, and the parent.
pub mod Session
pub mod Parent
use linux_unix_development.Common.{
  ℕ, zero, suc, Bool, true, false, Option, none, some, List, [], ◌∷◌, ◌==◌, if◌then◌else◌, Outcome,
  ok, exit, ◌>>=◌,
}
use linux_unix_development.System.Writer.{Writer}
use linux_unix_development.Http.Header.{Calendar}
use linux_unix_development.Http.Request.{Verdict, keep_alive, unset, end, FileData, httpd}

-- Whether bind and listen succeed.
pub setup : (binds listens : Bool) → Outcome (Unit {0})
setup false listens = exit 1
setup true false = exit 1
setup true true = ok tt

-- What a round of the child's loop finds: select fails, another descriptor is ready, or the client's
-- is, with the number that FIONREAD gives and the reads that httpd can make. What these would bring that
-- httpd does not read stays in the socket and is part of a later round.
pub data Poll : Type 0 where
  failed other : Poll
  ready : ℕ → List (List ℕ) → Poll

-- The child after some rounds: it has closed the connection, or it waits in select.
pub data Child (w : Writer) : Type 0 where
  closed : w.Conn → Child w
  waiting : w.Conn → Child w

module _ (w : Writer) (cal : Calendar) (files : List ℕ → Option FileData) (now : ℕ) where
  -- The test of what httpd returns; `next` is the loop.
  pub verdict : (next : w.Conn → Outcome (Child w)) → Verdict → w.Conn → Outcome (Child w)
  verdict next end s = ok (closed s)
  verdict next keep_alive s = next s
  verdict next unset s = next s

  -- A request, unless the client has nothing to say any more.
  pub request : (next : w.Conn → Outcome (Child w)) → ℕ → List (List ℕ) → w.Conn → Outcome (Child w)
  request next zero input s = ok (closed s)
  request next (suc n) input s = httpd w cal files now input s >>= λ (v, t, rest). verdict next v t

  -- The loop of the child.
  pub child_loop : List Poll → w.Conn → Outcome (Child w)
  child_loop [] s = ok (waiting s)
  child_loop (failed ∷ ps) s = ok (closed s)
  child_loop (other ∷ ps) s = child_loop ps s
  child_loop (ready n input ∷ ps) s = request (child_loop ps) n input s

-- The return of fork in the parent.
pub data Fork : Type 0 where
  forked fork_failed : Fork

remove_fd : ℕ → List ℕ → List ℕ
remove_fd fd [] = []
remove_fd fd (q ∷ qs) = let rest = remove_fd fd qs in if q == fd then rest else q ∷ rest

-- A round of the parent on its open descriptors: what accept gives, and what fork does.
pub parent_round : Option ℕ → Fork → List ℕ → List ℕ
unfolding remove_fd
parent_round none f open_fds = open_fds
parent_round (some soc_cli) forked open_fds = remove_fd soc_cli (soc_cli ∷ open_fds)
parent_round (some soc_cli) fork_failed open_fds = soc_cli ∷ open_fds

pub parent_rounds : List (Option ℕ × Fork) → List ℕ → List ℕ
parent_rounds [] open_fds = open_fds
parent_rounds ((a, f) ∷ rs) open_fds = parent_rounds rs (parent_round a f open_fds)
