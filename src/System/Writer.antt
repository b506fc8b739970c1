-- ===== src/System/Writer.antt =====
-- A descriptor that takes bytes: send(2) and write(2) on a blocking stream.
use linux_unix_development.Common.{
  ℕ, ◌≤◌, ◌<◌, ◌≡◌, ◌≢◌, refl, ap, ◌∙◌, sym, Option, none, some, List, ◌++◌, append_assoc, length,
  take, drop, take-append-drop, Outcome, ok,
}

-- The return value of the routines that answer 0 or -1.
pub data Status : Type 0 where
  success failure : Status

-- `send s x` offers the bytes `x`: it returns how many were taken, or `none` for -1.
pub record Writer : Type 1 where
  pub Conn : Type 0
  pub send : Conn → List ℕ → Option ℕ × Conn

-- Documented behaviour: what was taken is a prefix of what was offered, not empty unless nothing
-- was offered, and a failed call takes nothing. `sent` is what the other side has been given.
pub record IsWriter (w : Writer) (sent : w.Conn → List ℕ) : Type 0 where
  pub taken : (s : w.Conn) (x : List ℕ) (n : ℕ) → (w.send s x).0 ≡ some n → n ≤ length x
  pub progress : (s : w.Conn) (x : List ℕ) (n : ℕ) → (w.send s x).0 ≡ some n → 0 < length x → 0 < n
  pub stored :
      (s : w.Conn) (x : List ℕ) (n : ℕ)
      → (w.send s x).0 ≡ some n
      → sent (w.send s x).1 ≡ sent s ++ take n x
  pub failed : (s : w.Conn) (x : List ℕ) → (w.send s x).0 ≡ none → sent (w.send s x).1 ≡ sent s

-- Some call returns -1.
abbrev pub HasFailure : Writer → Type 0
HasFailure w = (s : w.Conn) × (x : List ℕ) × ((w.send s x).0 ≡ none)

-- No call returns -1.
abbrev pub IsReliable : Writer → Type 0
IsReliable w = (s : w.Conn) (x : List ℕ) → (w.send s x).0 ≢ none

module _ (w : Writer) (sent : w.Conn → List ℕ) where
  -- The outcome of sending `x` whole from `s`: all of it is with the other side, or the call
  -- failed after a prefix of it, because a call returned -1.
  pub data Delivered (s : w.Conn) (x : List ℕ) : Outcome (Status × w.Conn) → Type 0 where
    all : {t : w.Conn} → sent t ≡ sent s ++ x → Delivered s x (ok (success, t))
    part :
        {t : w.Conn} (p q : List ℕ)
        → x ≡ p ++ q
        → sent t ≡ sent s ++ p
        → HasFailure w
        → Delivered s x (ok (failure, t))

  -- A call that took `n` bytes, and the delivery of the rest.
  pub Delivered-step :
      {s t : w.Conn} {o : Outcome (Status × w.Conn)} (x : List ℕ) (n : ℕ)
      → sent t ≡ sent s ++ take n x
      → Delivered t (drop n x) o
      → Delivered s x o
  Delivered-step {s} x n e (all h) = all (
      h
      ∙ ap (λ y. y ++ drop n x) e
      ∙ append_assoc (sent s) (take n x) (drop n x)
      ∙ ap (λ y. sent s ++ y) (take-append-drop n x))
  Delivered-step {s} x n e (part p q d h b) =
      part (take n x ++ p) q
        (sym (take-append-drop n x) ∙ ap (λ y. take n x ++ y) d ∙ sym (append_assoc (take n x) p q))
        (h ∙ ap (λ y. y ++ p) e ∙ append_assoc (sent s) (take n x) p) b

  -- Over a reliable writer everything is delivered.
  pub Delivered-reliable :
      {s : w.Conn} {x : List ℕ} {o : Outcome (Status × w.Conn)}
      → IsReliable w
      → Delivered s x o
      → (t : w.Conn) × (o ≡ ok (success, t)) × (sent t ≡ sent s ++ x)
  Delivered-reliable r (all {t} h) = (t, refl, h)
  Delivered-reliable r (part p q d h (s', y, e)) = absurd (r s' y e)
