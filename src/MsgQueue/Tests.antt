-- ===== src/MsgQueue/Tests.antt =====
-- The theorems of the message queue server at a registry of two clients.
use linux_unix_development.Common.{
  ℕ, false, ◌≡◌, refl, true, none, some, List, [], ◌∷◌, ◌++◌, ◌==◌, if◌then◌else◌, ok, ◌>>=◌, arith,
}
use linux_unix_development.Common.Bytes.{codes}
use linux_unix_development.MsgQueue.Heap.{node, Heap}
use linux_unix_development.MsgQueue.Registry
use linux_unix_development.MsgQueue.Registry.Chain.{Cells, NotIn, IsRegistry}
use linux_unix_development.MsgQueue.Registry.Add.{add-snoc}
use linux_unix_development.MsgQueue.Registry.Remove.{erase, Replaced, remove-erase}
use linux_unix_development.MsgQueue.Messages.{Message, login, logout}
use linux_unix_development.MsgQueue.Server.{Queues, ServerState, serve}
use linux_unix_development.MsgQueue.Server.Session.{ids, send_each, login-logout}

abbrev two_cells : Heap
two_cells p = if p == 8 then some (node 5 16) else if p == 16 then some (node 6 0) else none

abbrev two : Registry.State
two = record { first = 8; cells = two_cells }

abbrev clients : Cells
clients = (8, 5) ∷ (16, 6) ∷ []

two-IsRegistry : IsRegistry two clients
two-IsRegistry = record {
  head = refl;
  chain = (omega arith, refl, (omega arith, tt), (omega arith, refl, tt, tt));
}

add-snoc_example :
    (t : Registry.State) × (Registry.add 4 24 7 two ≡ ok t)
    × IsRegistry t (clients ++ ((24, 7) ∷ []))
    × ((b : ℕ) → NotIn b (clients ++ ((24, 7) ∷ [])) → t.cells b ≡ two_cells b)
add-snoc_example = add-snoc 4 24 7 two clients two-IsRegistry (omega arith) (omega arith) refl

remove-erase_example :
    (t : Registry.State) × (Registry.remove 4 6 two ≡ ok t)
    × IsRegistry t (erase 6 clients)
    × Replaced two_cells t.cells clients (erase 6 clients)
remove-erase_example = remove-erase 4 6 two clients two-IsRegistry (omega arith)

-- Queues that keep what is sent to them, but for client 6, whose queue is full.
abbrev queues : Queues
queues = record {
  Store = List (ℕ × Message);
  msgsnd = λ i m s. if i == 6 then (false, s) else (true, (i, m) ∷ s);
}

abbrev server : ServerState queues
server = record { registry = two; client_id = 0; puffer = []; store = [] }

login-logout_example :
    (t : ServerState queues) × IsRegistry t.registry clients
    × ((serve queues 4 24 (login 7) server >>= serve queues 4 24 (logout 7)) ≡ ok t)
    × (t.store
        ≡ send_each queues
            (record { priority = 7; text = codes "Login" })
            (ids (clients ++ ((24, 7) ∷ [])))
            [])
login-logout_example =
    login-logout queues 4 24 7 server clients two-IsRegistry (omega arith) (omega arith) refl
      (omega arith, (omega arith, tt))

abbrev hello : Message
hello = record { priority = 7; text = codes "Login" }
