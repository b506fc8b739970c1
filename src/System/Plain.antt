-- ===== src/System/Plain.antt =====
-- A file for examples: a write takes everything, and a read gives up to three bytes.
use linux_unix_development.Common.{
  ℕ, ◌≡◌, sym, ap, some, List, ◌++◌, length, length-take, take, drop, take-append-drop, min,
  take-length, arith,
}
use linux_unix_development.System.Writer.{Writer, IsWriter, IsReliable}
use linux_unix_development.System.Reader.{Reader, IsReader, NeverFails}

abbrev pub plain : Writer
plain = record { Conn = List ℕ; send = λ s x. (some (length x), s ++ x) }

abbrev pub written : List ℕ → List ℕ
written s = s

some-inj : {A : Type 0} (a b : A) → some a ≡ some b → a ≡ b
some-inj a b e = cc

pub plain-IsWriter : IsWriter plain written
plain-IsWriter = record {
  taken = λ s x n e. omega (arith, some-inj _ _ e);
  progress = λ s x n e p. omega (arith, some-inj _ _ e);
  stored = λ s x n e. ap (λ y. s ++ y) (sym (take-length n x (omega (arith, some-inj _ _ e))));
  failed = λ s x e. absurd (cc);
}

pub plain-IsReliable : IsReliable plain
plain-IsReliable s x e = absurd (cc)

-- A source of bytes that gives at most three at a time.
abbrev pub threes : Reader
threes = record { Source = List ℕ; read = λ s n. (some (take (min 3 n) s), drop (min 3 n) s) }

abbrev pub unread : List ℕ → List ℕ
unread s = s

pub threes-IsReader : IsReader threes unread
threes-IsReader = record {
  short = λ s n x e. omega (arith, ap length (some-inj _ _ e), length-take (min 3 n) s);
  split = λ s n x e. rw (← some-inj _ _ e) (sym (take-append-drop (min 3 n) s));
  progress = λ s n x e p q. omega (arith, ap length (some-inj _ _ e), length-take (min 3 n) s);
}

pub threes-NeverFails : NeverFails threes
threes-NeverFails s n e = absurd (cc)
