-- ===== src/Http/Request/Ahead.antt =====
-- What the stream of httpd reads from the socket.
use linux_unix_development.Common.{
  ℕ, zero, suc, ◌+◌, ◌-◌, ◌≤◌, ◌<◌, ◌≡◌, refl, ap, sym, subst, inl, inr, List, [], ◌∷◌, ◌++◌,
  length, length-append, Bool-cases, leb, arith,
}
use linux_unix_development.Http.Request.{joined, unread}

-- Of these reads, those up to `last` are made to take `n` bytes: what stands before `last` is not enough,
-- and with it there is enough.
pub record Ahead (n : ℕ) (reads left : List (List ℕ)) : Type 0 where
  pub taken : List (List ℕ)
  pub last : List ℕ
  pub made : reads ≡ taken ++ (last ∷ left)
  pub needed : length (joined taken) < n
  pub enough : n ≤ length (joined taken) + length last

Ahead-cons :
    (n : ℕ) (x : List ℕ) (reads left : List (List ℕ))
    → length x < n
    → Ahead (n - length x) reads left
    → Ahead n (x ∷ reads) left
unfolding joined
Ahead-cons n x reads left h a = record {
  taken = x ∷ a.taken;
  last = a.last;
  made = ap (λ l. x ∷ l) a.made;
  needed = omega (arith, h, a.needed, length-append x (joined a.taken));
  enough = omega (arith, h, a.enough, length-append x (joined a.taken));
}

pub unread-Ahead :
    (n : ℕ) (reads : List (List ℕ))
    → 0 < n
    → n ≤ length (joined reads)
    → Ahead n reads (unread n reads)
unfolding unread joined
unread-Ahead zero reads h l = absurd (omega arith)
unread-Ahead (suc n) [] h l = absurd (omega arith)
unread-Ahead (suc n) (x ∷ reads) h l = elim (Bool-cases (leb (suc n) (length x))) [
  | inl e ↦
      let done : suc n - length x ≡ 0 = ground (arith, e) in
      subst (λ k. Ahead (suc n) (x ∷ reads) (unread k reads)) (sym done)
        (record {
          taken = [];
          last = x;
          made = refl;
          needed = omega arith;
          enough = ground (arith, e);
        })
  | inr e ↦ Ahead-cons (suc n) x reads (unread (suc n - length x) reads) (ground (arith, e)) (
      unread-Ahead (suc n - length x) reads (ground (arith, e))
        (ground (arith, e, l, length-append x (joined reads))))
]
