-- ===== src/MsgQueue/Registry/Remove.antt =====
-- mq_verwaltung_remove takes out the first node with the identifier.
use linux_unix_development.Common.{
  ℕ, zero, suc, ◌≤◌, ◌<◌, ◌≡◌, ◌⊎◌, refl, ap, ◌∙◌, inl, inr, true, false, none, some, [], ◌∷◌, ◌==◌,
  if◌then◌else◌, Bool-cases, length, ok, ◌>>=◌, arith,
}
use linux_unix_development.MsgQueue.Heap.{node, Heap, write, load}
use linux_unix_development.MsgQueue.Registry.{State, remove_loop, remove}
use linux_unix_development.MsgQueue.Registry.Chain.{
  Cells, head_ptr, NotIn, Chain, IsRegistry, Chain-write, load-held,
}

-- The list without its first node that holds `i`.
unfoldable pub erase : ℕ → Cells → Cells
erase i [] = []
erase i ((p, k) ∷ xs) = if k == i then xs else (p, k) ∷ erase i xs

NotIn-erase : (a i : ℕ) (xs : Cells) → NotIn a xs → NotIn a (erase i xs)
unfolding erase
NotIn-erase a i [] n = tt
NotIn-erase a i ((p, k) ∷ xs) n = elim (Bool-cases (k == i)) [
  | inl e ↦ rw e n.1
  | inr e ↦ rw e (n.0, NotIn-erase a i xs n.1)
]

-- The nodes `ys` in `g` instead of `xs` in `h`: nothing else was written, and a node that is gone is
-- not allocated any more.
pub record Replaced (h g : Heap) (xs ys : Cells) : Type 0 where
  pub chain : Chain g ys
  pub same : (b : ℕ) → NotIn b xs → g b ≡ h b
  pub freed : (b : ℕ) → NotIn b ys → NotIn b xs ⊎ (g b ≡ none)

hit-Replaced :
    (h : Heap) (a k b m : ℕ) (ys : Cells)
    → Chain h ((a, k) ∷ (b, m) ∷ ys)
    → Replaced h
        (write (write h a (some (node k (head_ptr ys)))) b none)
        ((a, k) ∷ (b, m) ∷ ys)
        ((a, k) ∷ ys)
hit-Replaced h a k b m ys c = record {
  chain = (
    c.0,
    ground (arith, c.2.0),
    c.2.1,
    Chain-write (write h a (some (node k (head_ptr ys)))) b none ys c.3.2
        (Chain-write h a (some (node k (head_ptr ys))) ys c.2.1 c.3.3),
  );
  same = λ q n. ground (arith, n.0, n.1.0);
  freed = λ q n. elim (Bool-cases (b == q)) [
    | inl e ↦ inr (rw e)
    | inr e ↦ inl (n.0, (ground arith, n.1))
  ];
}

first-Replaced :
    (h : Heap) (a k : ℕ) (xs : Cells)
    → Chain h ((a, k) ∷ xs)
    → Replaced h (write h a none) ((a, k) ∷ xs) xs
first-Replaced h a k xs c = record {
  chain = Chain-write h a none xs c.2 c.3;
  same = λ q n. ground (arith, n.0);
  freed = λ q n. elim (Bool-cases (a == q)) [ inl e ↦ inr (rw e) | inr e ↦ inl (ground arith, n) ];
}

miss-Replaced :
    (h g : Heap) (a k b m : ℕ) (ys zs : Cells)
    → Chain h ((a, k) ∷ (b, m) ∷ ys)
    → NotIn a zs
    → Replaced h g ((b, m) ∷ ys) ((b, m) ∷ zs)
    → Replaced h g ((a, k) ∷ (b, m) ∷ ys) ((a, k) ∷ (b, m) ∷ zs)
miss-Replaced h g a k b m ys zs c n r = record {
  chain = (c.0, r.same a c.2 ∙ c.1, (c.2.0, n), r.chain);
  same = λ q o. r.same q o.1;
  freed = λ q o. elim (r.freed q o.1) [ inl y ↦ inl (o.0, y) | inr e ↦ inr e ];
}

-- The loop behind the node `(a, k)`.
loop-Replaced :
    (i fuel a k : ℕ) (h : Heap) (xs : Cells)
    → length xs < fuel
    → Chain h ((a, k) ∷ xs)
    → (g : Heap) × (remove_loop fuel i h a ≡ ok g)
      × Replaced h g ((a, k) ∷ xs) ((a, k) ∷ erase i xs)
unfolding remove_loop erase
loop-Replaced i zero a k h xs f c = absurd (omega arith)
loop-Replaced i (suc fuel) a k h [] f c = (
  h,
  rw (load-held h a (node k 0) c.0 c.1),
  record { chain = c; same = λ b n. refl; freed = λ b n. inl n },
)
loop-Replaced i (suc fuel) a k h ((b, m) ∷ ys) f c =
    let nz : (b == 0) ≡ false = ground (arith, c.3.0) in
    let la = load-held h a (node k b) c.0 c.1 in
    let lb = load-held h b (node m (head_ptr ys)) c.3.0 c.3.1 in
    elim (Bool-cases (m == i)) [
      | inl hit ↦ (
        write (write h a (some (node k (head_ptr ys)))) b none,
        rw (la, lb, nz, hit),
        rw hit (hit-Replaced h a k b m ys c),
      )
      | inr miss ↦
          let (g, e, r) = loop-Replaced i fuel b m h ys (omega arith) c.3 in
          (
            g,
            rw (la, lb, nz, miss) e,
            rw miss (miss-Replaced h g a k b m ys (erase i ys) c (NotIn-erase a i ys c.2.1) r),
          )
    ]

remove-erase_at :
    (fuel i first : ℕ) (h : Heap) (xs : Cells)
    → first ≡ head_ptr xs
    → length xs ≤ fuel
    → Chain h xs
    → (t : State) × (remove fuel i (record { first = first; cells = h }) ≡ ok t)
      × (t.first ≡ head_ptr (erase i xs))
      × Replaced h t.cells xs (erase i xs)
unfolding remove erase
remove-erase_at fuel i first h [] e f c = (
  record { first = first; cells = h },
  rw (let z : (first == 0) ≡ true = ground arith in z),
  e,
  record { chain = tt; same = λ b n. refl; freed = λ b n. inl tt },
)
remove-erase_at fuel i first h ((a, k) ∷ xs) e f c =
    let nz : (first == 0) ≡ false = ground (arith, c.0) in
    let la : load h first ≡ ok (node k (head_ptr xs)) =
      ap (load h) e ∙ load-held h a (node k (head_ptr xs)) c.0 c.1 in
    elim (Bool-cases (k == i)) [
      | inl hit ↦ (
        record { first = head_ptr xs; cells = write h first none },
        rw (la, nz, hit),
        rw hit,
        rw (hit, e) (first-Replaced h a k xs c),
      )
      | inr miss ↦
          let (g, eq, r) = loop-Replaced i fuel a k h xs (omega arith) c in
          (
            record { first = first; cells = g },
            rw (la, nz, miss)
                (ap (λ o. o >>= λ y. ok (record { first = first; cells = y }))
                  (ap (remove_loop fuel i h) e ∙ eq)),
            rw miss e,
            rw miss r,
          )
    ]

-- On a list `xs` and with enough fuel, `mq_verwaltung_remove(i)` ends without a fault and leaves the
-- list without its first node that holds `i`. It frees that node and writes nowhere else than in
-- the nodes of the list.
pub remove-erase :
    (fuel i : ℕ) (s : State) (xs : Cells)
    → IsRegistry s xs
    → length xs ≤ fuel
    → (t : State) × (remove fuel i s ≡ ok t)
      × IsRegistry t (erase i xs)
      × Replaced s.cells t.cells xs (erase i xs)
remove-erase fuel i s xs r f =
    let (t, e, h, p) = remove-erase_at fuel i s.first s.cells xs r.head f r.chain in
    (t, e, record { head = h; chain = p.chain }, p)
