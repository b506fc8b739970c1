-- ===== src/MsgQueue/Server.antt =====
-- verteilen and the body of the server's loop, of 09_IPC/msq_server.c.
pub mod Session
use linux_unix_development.Common.{
  ℕ, zero, suc, Bool, true, false, Option, none, some, List, [], ◌∷◌, ◌==◌, if◌then◌else◌, Outcome,
  ok, fault, out_of_fuel, ◌>>=◌,
}
use linux_unix_development.MsgQueue.Heap.{Node, Heap, load}
use linux_unix_development.MsgQueue.Registry
use linux_unix_development.MsgQueue.Messages.{Message, scan_id, scan_pair}

-- msgsnd on the queue of an identifier: whether it succeeded, and the queues after it.
pub record Queues : Type 1 where
  pub Store : Type 0
  pub msgsnd : ℕ → Message → Store → Bool × Store

module _ (q : Queues) where
  open q use {Store, msgsnd}

  -- The variables of the server: the list, the two that sscanf fills, and the queues.
  pub record ServerState : Type 0 where
    pub registry : Registry.State
    pub client_id : ℕ
    pub puffer : List ℕ
    pub store : Store

  -- The loop of verteilen: the result of msgsnd only changes what is printed.
  pub distribute_loop : ℕ → Heap → Message → ℕ → Store → Outcome Store
  distribute_loop zero h m p s = out_of_fuel
  distribute_loop (suc fuel) h m p s =
      let rest = (load h p >>= λ n. distribute_loop fuel h m n.next (msgsnd n.id m s).1) in
      if p == 0 then ok s else rest

  -- verteilen(str, p)
  pub distribute : ℕ → Registry.State → List ℕ → ℕ → Store → Outcome Store
  distribute fuel r str p s =
      distribute_loop fuel r.cells (record { priority = p; text = str }) r.first s

  -- A message that ends a login.
  pub on_logout : ℕ → Message → ServerState → Outcome ServerState
  on_logout fuel m s =
      let id = scan_id m.text s.client_id in
      Registry.remove fuel id s.registry >>= λ r. ok (record s { registry = r; client_id = id })

  -- Any other message.
  pub on_message : ℕ → (new : ℕ) → Message → ServerState → Outcome ServerState
  on_message fuel new m s =
      let (id, puffer) = scan_pair m.text (s.client_id, s.puffer) in
      Registry.add fuel new id s.registry >>= λ r. distribute fuel r puffer id s.store >>= λ t.
      ok (record { registry = r; client_id = id; puffer = puffer; store = t })

  -- One round of the loop on a message that msgrcv delivered, where malloc would return `new`.
  pub serve : ℕ → (new : ℕ) → Message → ServerState → Outcome ServerState
  unfolding on_logout on_message
  serve fuel new m s = if m.priority == 1 then on_logout fuel m s else on_message fuel new m s
