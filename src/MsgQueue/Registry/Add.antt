-- ===== src/MsgQueue/Registry/Add.antt =====
-- mq_verwaltung_add puts the new identifier behind the others.
use linux_unix_development.Common.{
  ℕ, zero, suc, ◌≤◌, ◌<◌, ◌≡◌, ◌≢◌, refl, ap, ◌∙◌, sym, false, none, some, [], ◌∷◌, ◌++◌, ◌==◌,
  length, null_pointer, ok, fault, ◌>>=◌, arith,
}
use linux_unix_development.MsgQueue.Heap.{node, Heap, write}
use linux_unix_development.MsgQueue.Registry.{State, last, append, add}
use linux_unix_development.MsgQueue.Registry.Chain.{
  Cells, NotIn, Chain, IsRegistry, NotIn-free, load-held,
}

-- The last node of a chain that is not empty.
last_cell : ℕ × ℕ → Cells → ℕ × ℕ
last_cell x [] = x
last_cell x (y ∷ ys) = last_cell y ys

last_lem :
    (h : Heap) (fuel a k : ℕ) (xs : Cells)
    → length xs < fuel
    → Chain h ((a, k) ∷ xs)
    → last fuel h a ≡ ok (last_cell (a, k) xs).0
unfolding last last_cell
last_lem h zero a k xs f c = absurd (omega arith)
last_lem h (suc fuel) a k [] f c = rw (load-held h a (node k 0) c.0 c.1)
last_lem h (suc fuel) a k ((b, m) ∷ ys) f c =
    rw (load-held h a (node k b) c.0 c.1, let e : (b == 0) ≡ false = ground (arith, c.3.0) in e)
      (last_lem h fuel b m ys (omega arith) c.3)

-- The last node is one of the nodes.
last-ne : (a : ℕ) (x : ℕ × ℕ) (xs : Cells) → NotIn a (x ∷ xs) → a ≢ (last_cell x xs).0
unfolding last_cell
last-ne a x [] n = n.0
last-ne a x (y ∷ ys) n = last-ne a y ys n.1

NotIn-append : (a : ℕ) (xs : Cells) (p i : ℕ) → NotIn a xs → a ≢ p → NotIn a (xs ++ ((p, i) ∷ []))
NotIn-append a [] p i n e = (e, tt)
NotIn-append a ((b, k) ∷ xs) p i n e = (n.0, NotIn-append a xs p i n.1 e)

NotIn-split : (a : ℕ) (xs : Cells) (p i : ℕ) → NotIn a (xs ++ ((p, i) ∷ [])) → NotIn a xs × (a ≢ p)
NotIn-split a [] p i n = (tt, n.0)
NotIn-split a ((b, k) ∷ xs) p i n = let (m, e) = NotIn-split a xs p i n.1 in ((n.0, m), e)

-- Linking a new node behind the last one.
Chain-link :
    (h : Heap) (p i a k : ℕ) (xs : Cells)
    → p ≢ 0
    → NotIn p ((a, k) ∷ xs)
    → Chain h ((a, k) ∷ xs)
    → let z = last_cell (a, k) xs in
      (h z.0 ≡ some (node z.1 0))
      × Chain
          (write (write h z.0 (some (node z.1 p))) p (some (node i 0)))
          (((a, k) ∷ xs) ++ ((p, i) ∷ []))
unfolding last_cell
Chain-link h p i a k [] z n c =
    (c.1, (c.0, ground (arith, n.0), (λ e. n.0 (sym e), tt), (z, ground arith, tt, tt)))
Chain-link h p i a k ((b, m) ∷ ys) z n c =
    let (held, rest) = Chain-link h p i b m ys z n.1 c.3 in
    (
      held,
      (
        c.0,
        ground (arith, n.0, c.1, last-ne a (b, m) ys c.2),
        NotIn-append a ((b, m) ∷ ys) p i c.2 (λ e. n.0 (sym e)),
        rest,
      ),
    )

-- The heap after `append`.
append-link :
    (h : Heap) (first p i : ℕ) (z : ℕ × ℕ)
    → p ≢ 0
    → z.0 ≢ 0
    → h z.0 ≡ some (node z.1 0)
    → append p i z.0 (record { first = first; cells = h })
      ≡ ok (record {
        first = first;
        cells = write (write h z.0 (some (node z.1 p))) p (some (node i 0));
      })
unfolding append
append-link h first p i z pz zz e =
    rw (load-held h z.0 (node z.1 0) zz e, let t : (p == 0) ≡ false = ground arith in t)

last-ne-null : (h : Heap) (x : ℕ × ℕ) (xs : Cells) → Chain h (x ∷ xs) → (last_cell x xs).0 ≢ 0
unfolding last_cell
last-ne-null h x [] c = c.0
last-ne-null h x (y ∷ ys) c = last-ne-null h y ys c.3

add-link :
    (fuel p i first a k : ℕ) (h : Heap) (xs : Cells)
    → first ≡ a
    → p ≢ 0
    → length ((a, k) ∷ xs) ≤ fuel
    → Chain h ((a, k) ∷ xs)
    → let z = last_cell (a, k) xs in
      h z.0 ≡ some (node z.1 0)
      → add fuel p i (record { first = first; cells = h })
        ≡ ok (record {
          first = first;
          cells = write (write h z.0 (some (node z.1 p))) p (some (node i 0));
        })
unfolding add
add-link fuel p i first a k h xs e z f c held =
    rw (let t : (first == 0) ≡ false = ground (arith, c.0) in t) (
      ap (λ o. o >>= λ q. append p i q (record { first = first; cells = h }))
        (ap (last fuel h) e ∙ last_lem h fuel a k xs (omega arith) c)
      ∙ append-link h first p i (last_cell (a, k) xs) z (last-ne-null h (a, k) xs c) held)

last-held :
    (h : Heap) (x : ℕ × ℕ) (xs : Cells)
    → Chain h (x ∷ xs)
    → h (last_cell x xs).0 ≡ some (node (last_cell x xs).1 0)
unfolding last_cell
last-held h x [] c = c.1
last-held h x (y ∷ ys) c = last-held h y ys c.3

add-null_at :
    (fuel i first a k : ℕ) (h : Heap) (xs : Cells)
    → first ≡ a
    → length ((a, k) ∷ xs) ≤ fuel
    → Chain h ((a, k) ∷ xs)
    → add fuel 0 i (record { first = first; cells = h }) ≡ fault null_pointer
unfolding add
add-null_at fuel i first a k h xs e f c =
    let z = last_cell (a, k) xs in
    rw (let t : (first == 0) ≡ false = ground (arith, c.0) in t) (
      ap (λ o. o >>= λ q. append 0 i q (record { first = first; cells = h }))
        (ap (last fuel h) e ∙ last_lem h fuel a k xs (omega arith) c)
      ∙ unfold append in
        rw (load-held h z.0 (node z.1 0) (last-ne-null h (a, k) xs c) (last-held h (a, k) xs c)))

-- With a result of malloc that is not NULL and not allocated before, and more fuel than nodes,
-- `mq_verwaltung_add(i)` puts the new node with `i` behind the others, and changes nothing outside
-- the nodes of the list and the new one.
pub add-snoc :
    (fuel p i : ℕ) (s : State) (xs : Cells)
    → IsRegistry s xs
    → length xs ≤ fuel
    → p ≢ 0
    → s.cells p ≡ none
    → (t : State) × (add fuel p i s ≡ ok t)
      × IsRegistry t (xs ++ ((p, i) ∷ []))
      × ((b : ℕ) → NotIn b (xs ++ ((p, i) ∷ [])) → t.cells b ≡ s.cells b)
unfolding add
add-snoc fuel p i s [] r f z u = (
  record { first = p; cells = write s.cells p (some (node i 0)) },
  rw (r.head, let t : (p == 0) ≡ false = ground arith in t),
  record { head = refl; chain = (z, ground arith, tt, tt) },
  λ b n. ground (arith, n.0),
)
add-snoc fuel p i s ((a, k) ∷ xs) r f z u =
    let c = r.chain in
    let n = NotIn-free s.cells p ((a, k) ∷ xs) u c in
    let (held, linked) = Chain-link s.cells p i a k xs z n c in
    let z' = last_cell (a, k) xs in
    (
      record {
        first = s.first;
        cells = write (write s.cells z'.0 (some (node z'.1 p))) p (some (node i 0));
      },
      add-link fuel p i s.first a k s.cells xs r.head z f c held,
      record { head = r.head; chain = linked },
      λ b out.
          let (o, ne) = NotIn-split b ((a, k) ∷ xs) p i out in
          let ne' = last-ne b (a, k) xs o in ground arith,
    )

-- `mq_verwaltung_add` does not test what malloc returns for a node behind another: if that is NULL
-- while a client is registered, it writes through the null pointer.
pub add-null :
    (fuel i : ℕ) (s : State) (a k : ℕ) (xs : Cells)
    → IsRegistry s ((a, k) ∷ xs)
    → length ((a, k) ∷ xs) ≤ fuel
    → add fuel 0 i s ≡ fault null_pointer
unfolding add
add-null fuel i s a k xs r f = add-null_at fuel i s.first a k s.cells xs r.head f r.chain
