-- ===== src/MsgQueue/Registry/Chain.antt =====
-- What the list stands for: the address and the identifier of each node, in order.
use linux_unix_development.Common.{ℕ, ◌≡◌, ◌≢◌, Option, none, some, List, [], ◌∷◌, ok, arith}
use linux_unix_development.MsgQueue.Heap.{Node, node, Heap, write, load}
use linux_unix_development.MsgQueue.Registry.{State}

abbrev pub Cells : Type 0
Cells = List (ℕ × ℕ)

abbrev pub head_ptr : Cells → ℕ
head_ptr [] = 0
head_ptr ((p, i) ∷ xs) = p

abbrev pub NotIn : ℕ → Cells → Type 0
NotIn a [] = Unit
NotIn a ((p, i) ∷ xs) = (a ≢ p) × NotIn a xs

-- The nodes `xs` are allocated, distinct, and linked in this order, the last to NULL.
abbrev pub Chain : Heap → Cells → Type 0
Chain h [] = Unit
Chain h ((p, i) ∷ xs) = (p ≢ 0) × (h p ≡ some (node i (head_ptr xs))) × NotIn p xs × Chain h xs

pub record IsRegistry (s : State) (xs : Cells) : Type 0 where
  pub head : s.first ≡ head_ptr xs
  pub chain : Chain s.cells xs

-- A write outside the nodes keeps the chain.
pub Chain-write :
    (h : Heap) (a : ℕ) (c : Option Node) (xs : Cells)
    → NotIn a xs
    → Chain h xs
    → Chain (write h a c) xs
Chain-write h a c [] n k = tt
Chain-write h a c ((p, i) ∷ xs) n k =
    (k.0, ground (arith, n.0, k.1), k.2, Chain-write h a c xs n.1 k.3)

-- What is not allocated is no node.
pub NotIn-free : (h : Heap) (a : ℕ) (xs : Cells) → h a ≡ none → Chain h xs → NotIn a xs
NotIn-free h a [] e k = tt
NotIn-free h a ((p, i) ∷ xs) e k = (ground (arith, k.1), NotIn-free h a xs e k.3)

pub load-held : (h : Heap) (p : ℕ) (n : Node) → p ≢ 0 → h p ≡ some n → load h p ≡ ok n
load-held h p n z e = ground arith
