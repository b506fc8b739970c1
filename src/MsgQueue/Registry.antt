-- ===== src/MsgQueue/Registry.antt =====
-- mq_verwaltung_add and mq_verwaltung_remove of 09_IPC/msq_server.c: the list of the clients' queue
-- identifiers behind `id_first`. A loop along the list takes fuel, since nothing counts the nodes.
pub mod Chain
pub mod Add
pub mod Remove
use linux_unix_development.Common.{
  ℕ, zero, suc, Bool, true, false, Option, none, some, ◌==◌, if◌then◌else◌, null_pointer, Outcome,
  ok, fault, exit, out_of_fuel, ◌>>=◌,
}
use linux_unix_development.MsgQueue.Heap.{Node, node, Heap, write, load}

-- `id_first` and the heap.
pub record State : Type 0 where
  pub first : ℕ
  pub cells : Heap

-- The walk to the last node.
pub last : ℕ → Heap → ℕ → Outcome ℕ
last zero h p = out_of_fuel
last (suc fuel) h p = do
  n ← load h p
  let rest = last fuel h n.next
  if n.next == 0 then ok p else rest

-- The new node behind the node `p`: `new` is what malloc returns. Its result is stored and used
-- without a test.
append : (new i p : ℕ) → State → Outcome State
append new i p s = do
  n ← load s.cells p
  let h = write s.cells p (some (node n.id new))
  if new == 0 then fault null_pointer else ok (record s { cells = write h new (some (node i 0)) })

-- mq_verwaltung_add(i), where malloc returns `new`.
pub add : ℕ → (new i : ℕ) → State → Outcome State
unfolding append
add fuel new i s =
    if s.first == 0
    then if new == 0
      then exit 1
      else ok (record { first = new; cells = write s.cells new (some (node i 0)) })
    else last fuel s.cells s.first >>= λ p. append new i p s

-- The loop of mq_verwaltung_remove, at the node `p`.
pub remove_loop : ℕ → (i : ℕ) → Heap → ℕ → Outcome Heap
remove_loop zero i h p = out_of_fuel
remove_loop (suc fuel) i h p = do
  n ← load h p
  let more = (do
    m ← load h n.next
    let rest = remove_loop fuel i h n.next
    if m.id == i then ok (write (write h p (some (node n.id m.next))) n.next none) else rest)
  if n.next == 0 then ok h else more

-- The first node holds `i` and is taken out, or the loop looks at the nodes behind it.
remove_first : ℕ → ℕ → State → Node → Outcome State
remove_first fuel i s n =
    if n.id == i
    then ok (record { first = n.next; cells = write s.cells s.first none })
    else remove_loop fuel i s.cells s.first >>= λ h. ok (record s { cells = h })

-- mq_verwaltung_remove(i)
pub remove : ℕ → ℕ → State → Outcome State
unfolding remove_first
remove fuel i s = if s.first == 0 then ok s else load s.cells s.first >>= remove_first fuel i s
