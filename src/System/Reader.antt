-- ===== src/System/Reader.antt =====
-- A descriptor that gives bytes: read(2).
use linux_unix_development.Common.{ℕ, ◌≤◌, ◌<◌, ◌≡◌, ◌≢◌, Option, none, some, List, ◌++◌, length}

-- `read s n` asks for at most `n` bytes: the bytes that came, or `none` for -1.
pub record Reader : Type 1 where
  pub Source : Type 0
  pub read : Source → ℕ → Option (List ℕ) × Source

-- Documented behaviour: at most `n` bytes come, they are the next ones of what is left, and some
-- come unless nothing is left.
pub record IsReader (r : Reader) (left : r.Source → List ℕ) : Type 0 where
  pub short : (s : r.Source) (n : ℕ) (x : List ℕ) → (r.read s n).0 ≡ some x → length x ≤ n
  pub split :
      (s : r.Source) (n : ℕ) (x : List ℕ)
      → (r.read s n).0 ≡ some x
      → left s ≡ x ++ left (r.read s n).1
  pub progress :
      (s : r.Source) (n : ℕ) (x : List ℕ)
      → (r.read s n).0 ≡ some x
      → 0 < n
      → 0 < length (left s)
      → 0 < length x

-- No call returns -1.
abbrev pub NeverFails : Reader → Type 0
NeverFails r = (s : r.Source) (n : ℕ) → (r.read s n).0 ≢ none
