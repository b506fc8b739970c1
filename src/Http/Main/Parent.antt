-- ===== src/Http/Main/Parent.antt =====
-- The descriptors of the parent.
use linux_unix_development.Common.{
  ℕ, ◌≡◌, ◌≢◌, refl, ap, ◌∙◌, sym, true, false, Option, none, some, List, [], ◌∷◌, ◌++◌,
  append_assoc, ◌==◌, arith,
}
use linux_unix_development.Http.Main.{
  Fork, forked, fork_failed, remove_fd, parent_round, parent_rounds,
}

-- The connections for which fork failed, the last one first.
abbrev pub leaked : List (Option ℕ × Fork) → List ℕ
leaked [] = []
leaked ((some fd, fork_failed) ∷ rs) = leaked rs ++ (fd ∷ [])
leaked (r ∷ rs) = leaked rs

-- No descriptor of the list is `fd`.
abbrev pub Without : ℕ → List ℕ → Type 0
Without fd [] = Unit
Without fd (q ∷ qs) = (q ≢ fd) × Without fd qs

-- accept gives a descriptor that is not open.
abbrev pub Fresh : List (Option ℕ × Fork) → List ℕ → Type 0
Fresh [] open_fds = Unit
Fresh ((none, f) ∷ rs) open_fds = Fresh rs open_fds
Fresh ((some fd, forked) ∷ rs) open_fds = Without fd open_fds × Fresh rs open_fds
Fresh ((some fd, fork_failed) ∷ rs) open_fds = Without fd open_fds × Fresh rs (fd ∷ open_fds)

remove_fd-Without : (fd : ℕ) (qs : List ℕ) → Without fd qs → remove_fd fd qs ≡ qs
unfolding remove_fd
remove_fd-Without fd [] h = refl
remove_fd-Without fd (q ∷ qs) h =
    rw (let z : (q == fd) ≡ false = ground (arith, h.0) in z)
      (ap (λ l. q ∷ l) (remove_fd-Without fd qs h.1))

remove_fd-accepted : (fd : ℕ) (qs : List ℕ) → Without fd qs → remove_fd fd (fd ∷ qs) ≡ qs
unfolding remove_fd
remove_fd-accepted fd qs h =
    rw (let z : (fd == fd) ≡ true = ground arith in z) (remove_fd-Without fd qs h)

-- If accept gives descriptors that are not open, then after any rounds the parent has closed the
-- connections that it gave to a child, and keeps each one for which fork failed.
pub parent_rounds-leaked :
    (rs : List (Option ℕ × Fork)) (open_fds : List ℕ)
    → Fresh rs open_fds
    → parent_rounds rs open_fds ≡ leaked rs ++ open_fds
unfolding parent_rounds parent_round
parent_rounds-leaked [] open_fds h = refl
parent_rounds-leaked ((none, f) ∷ rs) open_fds h = parent_rounds-leaked rs open_fds h
parent_rounds-leaked ((some fd, forked) ∷ rs) open_fds h =
    ap (parent_rounds rs) (remove_fd-accepted fd open_fds h.0)
    ∙ parent_rounds-leaked rs open_fds h.1
parent_rounds-leaked ((some fd, fork_failed) ∷ rs) open_fds h =
    parent_rounds-leaked rs (fd ∷ open_fds) h.1 ∙ sym (append_assoc (leaked rs) (fd ∷ []) open_fds)
