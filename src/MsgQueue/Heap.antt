-- ===== src/MsgQueue/Heap.antt =====
-- The nodes that the server allocates. A pointer is a number, and 0 is NULL.
use linux_unix_development.Common.{
  ℕ, Option, none, some, ◌==◌, if◌then◌else◌, dangling_pointer, null_pointer, Outcome, ok, fault,
}

-- `struct id_verwaltung` of 09_IPC/msq_header.h.
pub record Node : Type 0 where
  pub id : ℕ
  pub next : ℕ

abbrev pub node : ℕ → ℕ → Node
node i q = record { id = i; next = q }

-- `none` is memory that is not allocated.
abbrev pub Heap : Type 0
Heap = ℕ → Option Node

abbrev pub write : Heap → ℕ → Option Node → Heap
write h p c q = if p == q then c else h q

abbrev pub held : Option Node → Outcome Node
held none = fault dangling_pointer
held (some n) = ok n

-- Reading through a pointer.
abbrev pub load : Heap → ℕ → Outcome Node
load h p = if p == 0 then fault null_pointer else held (h p)
