-- ===== src/System/Chunked.antt =====
-- A connection for examples, which takes at most three bytes a call.
use linux_unix_development.Common.{ℕ, ◌≡◌, ap, some, List, ◌++◌, length, take, min, arith}
use linux_unix_development.System.Writer.{Writer, IsWriter, IsReliable}

abbrev pub chunked : Writer
chunked = record {
  Conn = List ℕ;
  send = λ s x. (some (min 3 (length x)), s ++ take (min 3 (length x)) x);
}

abbrev pub received : List ℕ → List ℕ
received s = s

some-inj : (a b : ℕ) → some a ≡ some b → a ≡ b
some-inj a b e = cc

pub chunked-IsWriter : IsWriter chunked received
chunked-IsWriter = record {
  taken = λ s x n e. omega (arith, some-inj _ _ e);
  progress = λ s x n e p. omega (arith, some-inj _ _ e);
  stored = λ s x n e. ap (λ k. s ++ take k x) (some-inj _ _ e);
  failed = λ s x e. absurd (cc);
}

pub chunked-IsReliable : IsReliable chunked
chunked-IsReliable s x e = absurd (cc)
