-- ===== src/MsgQueue/Server/Session.antt =====
-- What a client's login and logout do to the server.
use linux_unix_development.Common.{
  ℕ, zero, suc, ◌+◌, ◌≤◌, ◌<◌, ◌≡◌, ◌≢◌, refl, ap, ◌∙◌, true, false, none, List, [], ◌∷◌, ◌++◌,
  ◌==◌, length, length-append, ok, ◌>>=◌, arith,
}
use linux_unix_development.Common.Bytes.{codes}
use linux_unix_development.Common.Decimal
use linux_unix_development.MsgQueue.Heap.{node, Heap, load}
use linux_unix_development.MsgQueue.Registry
use linux_unix_development.MsgQueue.Registry.Chain.{Cells, head_ptr, Chain, IsRegistry, load-held}
use linux_unix_development.MsgQueue.Registry.Add.{add-snoc}
use linux_unix_development.MsgQueue.Registry.Remove.{erase, remove-erase}
use linux_unix_development.MsgQueue.Messages.{
  Message, login, logout, scan_pair-login, scan_id-logout, scan_id, scan_pair,
}
use linux_unix_development.MsgQueue.Server.{
  Queues, ServerState, distribute_loop, distribute, on_logout, on_message, serve,
}

abbrev pub ids : Cells → List ℕ
ids [] = []
ids ((p, i) ∷ xs) = i ∷ ids xs

-- No node holds the identifier.
abbrev pub Unregistered : ℕ → Cells → Type 0
Unregistered i [] = Unit
Unregistered i ((p, k) ∷ xs) = (k ≢ i) × Unregistered i xs

erase-snoc : (p i : ℕ) (xs : Cells) → Unregistered i xs → erase i (xs ++ ((p, i) ∷ [])) ≡ xs
unfolding erase
erase-snoc p i [] n = rw (let z : (i == i) ≡ true = ground arith in z)
erase-snoc p i ((a, k) ∷ xs) n =
    rw (let z : (k == i) ≡ false = ground (arith, n.0) in z)
      (ap (λ l. (a, k) ∷ l) (erase-snoc p i xs n.1))

module _ (q : Queues) where
  open q use {Store, msgsnd}

  -- One msgsnd for each identifier, in order.
  unfoldable pub send_each : Message → List ℕ → Store → Store
  send_each m [] s = s
  send_each m (i ∷ is) s = send_each m is (msgsnd i m s).1

  distribute_loop-send_each :
      (h : Heap) (m : Message) (xs : Cells) (fuel p : ℕ) (s : Store)
      → length xs < fuel
      → p ≡ head_ptr xs
      → Chain h xs
      → distribute_loop q fuel h m p s ≡ ok (send_each m (ids xs) s)
  unfolding distribute_loop send_each
  distribute_loop-send_each h m xs zero p s f e c = absurd (omega arith)
  distribute_loop-send_each h m [] (suc fuel) p s f e c =
      rw (let z : (p == 0) ≡ true = ground arith in z)
  distribute_loop-send_each h m ((a, i) ∷ xs) (suc fuel) p s f e c =
      rw
        (
          ap (load h) e ∙ load-held h a (node i (head_ptr xs)) c.0 c.1,
          let z : (p == 0) ≡ false = ground (arith, c.0) in z,
        )
        (distribute_loop-send_each h m xs fuel (head_ptr xs) (msgsnd i m s).1 (omega arith) refl
          c.3)

  -- On a list `xs` and with enough fuel, `verteilen` sends the text with the given priority once to
  -- each identifier of the list, in the order of the list, whatever msgsnd answers.
  pub distribute-send_each :
      (fuel : ℕ) (r : Registry.State) (xs : Cells) (str : List ℕ) (p : ℕ) (s : Store)
      → IsRegistry r xs
      → length xs < fuel
      → distribute q fuel r str p s
        ≡ ok (send_each (record { priority = p; text = str }) (ids xs) s)
  unfolding distribute
  distribute-send_each fuel r xs str p s i f =
      distribute_loop-send_each r.cells (record { priority = p; text = str }) xs fuel r.first s f
        i.head i.chain

  -- A client's login on a list `xs`: with enough fuel and a result of malloc that is not NULL and not
  -- allocated, the server ends its round without a fault, puts the client behind the others, and
  -- sends "Login" with the client's identifier as priority to all of them, the new one included.
  pub serve-login :
      (fuel new id : ℕ) (s : ServerState q) (xs : Cells)
      → IsRegistry s.registry xs
      → length xs + 1 < fuel
      → new ≢ 0
      → s.registry.cells new ≡ none
      → let ys = xs ++ ((new, id) ∷ []) in
        (r : Registry.State) × IsRegistry r ys
        × (serve q fuel new (login id) s
            ≡ ok (record {
              registry = r;
              client_id = id;
              puffer = codes "Login";
              store = send_each (record { priority = id; text = codes "Login" }) (ids ys) s.store;
            }))
  unfolding serve on_message login
  serve-login fuel new id s xs i f z u =
      let ys = xs ++ ((new, id) ∷ []) in
      let (r, e, j, same) = add-snoc fuel new id s.registry xs i (omega arith) z u in
      let d =
        distribute-send_each fuel r ys (codes "Login") id s.store j
          (omega (arith, length-append xs ((new, id) ∷ []))) in
      let p : scan_pair (Decimal.print id ++ (b':' ∷ codes "Login")) (s.client_id, s.puffer)
          ≡ (id, codes "Login") =
        unfold login in scan_pair-login id (s.client_id, s.puffer) in
      (r, j, rw (p, e, d))

  -- A client's logout on a list `xs`, with enough fuel: the server ends its round without a fault,
  -- the first node with the client's identifier is gone, and nothing is sent.
  pub serve-logout :
      (fuel new id : ℕ) (s : ServerState q) (xs : Cells)
      → IsRegistry s.registry xs
      → length xs ≤ fuel
      → (r : Registry.State) × IsRegistry r (erase id xs)
        × (serve q fuel new (logout id) s ≡ ok (record s { registry = r; client_id = id }))
  unfolding serve on_logout logout
  serve-logout fuel new id s xs i f =
      let (r, e, j, frame) = remove-erase fuel id s.registry xs i f in
      let p : scan_id (Decimal.print id) s.client_id ≡ id =
        unfold logout in scan_id-logout id s.client_id in
      (r, j, rw (p, e))

  -- A client that is not registered and that logs in and out again leaves the list of the others as
  -- it was, and no message but those of its login: with enough fuel, and a result of malloc that is
  -- not NULL and not allocated, the two rounds end without a fault.
  pub login-logout :
      (fuel new id : ℕ) (s : ServerState q) (xs : Cells)
      → IsRegistry s.registry xs
      → length xs + 1 < fuel
      → new ≢ 0
      → s.registry.cells new ≡ none
      → Unregistered id xs
      → (t : ServerState q) × IsRegistry t.registry xs
        × ((serve q fuel new (login id) s >>= serve q fuel new (logout id)) ≡ ok t)
        × (t.store
            ≡ send_each
                (record { priority = id; text = codes "Login" })
                (ids (xs ++ ((new, id) ∷ [])))
                s.store)
  login-logout fuel new id s xs i f z u n =
      let ys = xs ++ ((new, id) ∷ []) in
      let (r, j, e) = serve-login fuel new id s xs i f z u in
      let s₁ : ServerState q = record {
        registry = r;
        client_id = id;
        puffer = codes "Login";
        store = send_each (record { priority = id; text = codes "Login" }) (ids ys) s.store;
      } in
      let (t, k, g) =
        serve-logout fuel new id s₁ ys j (omega (arith, length-append xs ((new, id) ∷ []))) in
      (
        record s₁ { registry = t; client_id = id },
        rw (erase-snoc new id xs n) at k,
        ap (λ o. o >>= serve q fuel new (logout id)) e ∙ g,
        refl,
      )
