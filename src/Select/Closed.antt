-- ===== src/Select/Closed.antt =====
-- A client that closes its connection: recv gives no bytes, and TCP_recv takes that for a message.
use linux_unix_development.Common.{
  ℕ, zero, suc, ◌-◌, ◌≡◌, refl, ap, ◌∙◌, sym, inl, inr, Bool, true, false, Option, none, some, List,
  [], ◌∷◌, leb, ◌==◌, ==_iff, Bool-cases, Guarded, Guarded-bind, arith,
}
use linux_unix_development.Common.Bytes.{codes, c_string, str_eq}
use linux_unix_development.Select.{Event, State, tcp_recv, serve, Events, clients}
use linux_unix_development.Select.Table.{member}
use linux_unix_development.Select.PassOver.{entry, set_after, log_after}

-- A client of `t` is in `u`.
abbrev Stays : ℕ → List (Option ℕ) → List (Option ℕ) → Type 0
Stays fd t u = member fd t ≡ true → member fd u ≡ true

entry-Stays :
    (fd g : ℕ) (quit : Bool) (t u : List (Option ℕ))
    → ((fd == g) ≡ true → quit ≡ false)
    → Stays fd t u
    → Stays fd (some g ∷ t) (entry quit g ∷ u)
entry-Stays fd g quit t u stay s h = elim (Bool-cases (fd == g)) [
  | inl e ↦ rw (stay e, e)
  | inr e ↦ last quit (s (ground (arith, e, h)))
]
  where
    last : (b : Bool) → member fd u ≡ true → member fd (entry b g ∷ u) ≡ true
    last true k = k
    last false k = ground (arith, k)

-- An empty message stands for no bytes.
tcp_recv-empty : (o : Option (List ℕ)) → Guarded (λ x. o ≡ some [] → x ≡ []) (tcp_recv o)
unfolding tcp_recv
tcp_recv-empty none = tt
tcp_recv-empty (some x) = λ e. let f : x ≡ [] = cc in ap c_string f

not_quit :
    (fd g : ℕ) (recv : ℕ → Option (List ℕ)) (x : List ℕ)
    → recv fd ≡ some []
    → (recv g ≡ some [] → x ≡ [])
    → (fd == g) ≡ true
    → str_eq x (codes "quit\n") ≡ false
not_quit fd g recv x e f h =
    ap (λ y. str_eq y (codes "quit\n")) (f (ap recv (sym ((==_iff fd g).0 h)) ∙ e))

serve-Stays :
    (fd : ℕ) (lese : ℕ → Bool) (recv : ℕ → Option (List ℕ)) (n ready : ℕ) (t : List (Option ℕ))
    (set : ℕ → Bool) (log : List Event)
    → recv fd ≡ some []
    → Guarded (λ q. Stays fd t q.table) (serve lese recv n ready t set log)
unfolding serve
serve-Stays fd lese recv zero ready t set log e = λ h. h
serve-Stays fd lese recv (suc n) ready [] set log e = λ h. h
serve-Stays fd lese recv (suc n) ready (none ∷ t) set log e =
    Guarded-bind (λ q. Stays fd t q.table) (λ q. Stays fd (none ∷ t) q.table)
      (serve lese recv n ready t set log) _ (serve-Stays fd lese recv n ready t set log e) λ q r. r
serve-Stays fd lese recv (suc n) ready (some g ∷ t) set log e = elim (Bool-cases (lese g)) [
  | inr z ↦ rw z (
      Guarded-bind (λ q. Stays fd t q.table) (λ q. Stays fd (some g ∷ t) q.table)
        (serve lese recv n ready t set log) _ (serve-Stays fd lese recv n ready t set log e)
        λ q r. entry-Stays fd g false t q.table (λ h. refl) r)
  | inl z ↦ rw z (
      Guarded-bind (λ x. recv g ≡ some [] → x ≡ []) (λ q. Stays fd (some g ∷ t) q.table)
        (tcp_recv (recv g)) _ (tcp_recv-empty (recv g))
        λ x f.
          let quit = str_eq x (codes "quit\n") in
          let stay = not_quit fd g recv x e f in
          elim (Bool-cases (leb ready 1)) [
            | inl l ↦ rw l (entry-Stays fd g quit t t stay (λ h. h))
            | inr l ↦ rw l (
                Guarded-bind (λ q. Stays fd t q.table) (λ q. Stays fd (some g ∷ t) q.table)
                  (serve lese recv n (ready - 1) t (set_after quit g set) (log_after quit g x log))
                  _
                  (serve-Stays fd lese recv n (ready - 1) t (set_after quit g set)
                    (log_after quit g x log) e)
                  λ q r. entry-Stays fd g quit t q.table stay r)
          ])
]

-- A client whose connection is at its end, so that recv gives no bytes, is neither closed nor taken
-- out: after a pass over the clients that does not end the process it is still in the table.
pub clients-Stays :
    (fd ready : ℕ) (e : Events) (s : State)
    → e.recv fd ≡ some []
    → member fd s.client_sock ≡ true
    → Guarded (λ t. member fd t.client_sock ≡ true) (clients e ready s)
unfolding clients
clients-Stays fd ready e s h m =
    Guarded-bind (λ q. Stays fd s.client_sock q.table) (λ t. member fd t.client_sock ≡ true)
      (serve e.lese_sock e.recv s.top ready s.client_sock s.gesamt_sock s.log) _
      (serve-Stays fd e.lese_sock e.recv s.top ready s.client_sock s.gesamt_sock s.log h) λ q r. r m
