-- ===== src/Transfer/Name.antt =====
-- Reading the name of a file from a connection.
use linux_unix_development.Common.{
  ℕ, zero, suc, ◌+◌, ◌<◌, ◌≡◌, refl, ap, ap₂, ◌∙◌, sym, false, Option, none, some, List, [], ◌∷◌,
  ◌++◌, append_assoc, append-nil, lt→ltb, not-lt→ltb, ◌==◌, length, length-append, set,
  write_out_of_bounds, ok, fault, arith,
}
use linux_unix_development.Common.Bytes.{NoNul, c_string, c_string-terminated}
use linux_unix_development.System.Reader.{Reader, IsReader, NeverFails}
use linux_unix_development.Transfer.{name_round, read_name}

module _ {r : Reader} {left : r.Source → List ℕ} (ok_r : IsReader r left) (rel : NeverFails r) where
  -- One byte, where one is left.
  pub read-one :
      (s : r.Source) (c : ℕ) (cs : List ℕ)
      → left s ≡ c ∷ cs
      → (s' : r.Source) × (r.read s 1 ≡ (some (c ∷ []), s')) × (left s' ≡ cs)
  read-one s c cs e = from (r.read s 1).0 refl
    where
      from :
          (o : Option (List ℕ))
          → (r.read s 1).0 ≡ o
          → (s' : r.Source) × (r.read s 1 ≡ (some (c ∷ []), s')) × (left s' ≡ cs)
      from none f = absurd (rel s 1 f)
      from (some []) f =
          absurd (omega (arith, ok_r.progress s 1 [] f (omega arith) (omega (arith, ap length e))))
      from (some (d ∷ d' ∷ ds)) f = absurd (omega (arith, ok_r.short s 1 (d ∷ d' ∷ ds) f))
      from (some (d ∷ [])) f =
          let h : c ∷ cs ≡ d ∷ left (r.read s 1).1 = sym e ∙ ok_r.split s 1 (d ∷ []) f in
          let hd : c ≡ d = cc in
          let tl : cs ≡ left (r.read s 1).1 = cc in
          (
            (r.read s 1).1,
            ap (λ o. (o, (r.read s 1).1)) (f ∙ ap (λ x. some (x ∷ [])) (sym hd)),
            sym tl,
          )

-- No byte of a name is a newline.
abbrev pub OneLine : List ℕ → Type 0
OneLine [] = Unit
OneLine (c ∷ cs) = ((c == 10) ≡ false) × OneLine cs

set-length : (x : List ℕ) (a c : ℕ) (y : List ℕ) → set (x ++ (a ∷ y)) (length x) c ≡ x ++ (c ∷ y)
set-length [] a c y = refl
set-length (b ∷ x) a c y = ap (λ l. b ∷ l) (set-length x a c y)

module _ {r : Reader} {left : r.Source → List ℕ} (ok_r : IsReader r left) (rel : NeverFails r) where
  -- The loop after the bytes `x` of the name, with the bytes `name` of it to come.
  name-line :
      (fuel : ℕ) (x y name rest : List ℕ) (s : r.Source)
      → length name < fuel
      → OneLine name
      → length name < length y
      → left s ≡ name ++ (10 ∷ rest)
      → (z : List ℕ) × (s' : r.Source) × (read_name r fuel (length x) (x ++ y) s
          ≡ ok ((x ++ name) ++ (0 ∷ z), s'))
        × (left s' ≡ rest)
        × (length ((x ++ name) ++ (0 ∷ z)) ≡ length (x ++ y))
  unfolding read_name name_round
  name-line zero x y name rest s f o l e = absurd (omega arith)
  name-line (suc fuel) x [] name rest s f o l e = absurd (omega arith)
  name-line (suc fuel) x (a ∷ y) [] rest s f o l e =
      let (s', got, e') = read-one ok_r rel s 10 rest e in
      let room =
        lt→ltb (length x) (length (x ++ (a ∷ y))) (omega (arith, length-append x (a ∷ y))) in
      (
        y,
        s',
        rw (got, room, set-length x a 0 y, append-nil x),
        e',
        omega (arith, length-append (x ++ []) (0 ∷ y), length-append x (a ∷ y), length-append x []),
      )
  name-line (suc fuel) x (a ∷ y) (c ∷ name) rest s f o l e =
      let (s', got, e') = read-one ok_r rel s c (name ++ (10 ∷ rest)) e in
      let room =
        lt→ltb (length x) (length (x ++ (a ∷ y))) (omega (arith, length-append x (a ∷ y))) in
      let (z, t, eq, e'', n) =
        name-line fuel (x ++ (c ∷ [])) y name rest s' (omega arith) o.1 (omega arith) e' in
      let at : length (x ++ (c ∷ [])) ≡ length x + 1 = omega (arith, length-append x (c ∷ [])) in
      let text : (x ++ (c ∷ [])) ++ y ≡ x ++ (c ∷ y) = append_assoc x (c ∷ []) y in
      let whole : (x ++ (c ∷ [])) ++ name ≡ x ++ (c ∷ name) = append_assoc x (c ∷ []) name in
      (
        z,
        t,
        rw (got, room, o.0, set-length x a c y)
            (ap₂ (λ j p. read_name r fuel j p s') (sym at) (sym text)
              ∙ eq
              ∙ ap (λ l. ok (l ++ (0 ∷ z), t)) whole),
        e'',
        omega (
          arith,
          n,
          ap length text,
          ap (λ l. length (l ++ (0 ∷ z))) whole,
          length-append x (a ∷ y),
          length-append x (c ∷ y),
        ),
      )

  -- A name of as many bytes as `puffer` has room for is read to the end of the array and beyond.
  name-overflow :
      (fuel : ℕ) (x y name rest : List ℕ) (s : r.Source)
      → length name < fuel
      → OneLine name
      → length y < length name
      → left s ≡ name ++ rest
      → read_name r fuel (length x) (x ++ y) s ≡ fault write_out_of_bounds
  unfolding read_name name_round
  name-overflow zero x y name rest s f o l e = absurd (omega arith)
  name-overflow (suc fuel) x y [] rest s f o l e = absurd (omega arith)
  name-overflow (suc fuel) x [] (c ∷ name) rest s f o l e =
      let (s', got, e') = read-one ok_r rel s c (name ++ rest) e in
      rw (got, not-lt→ltb (length x) (length (x ++ [])) (omega (arith, length-append x [])))
  name-overflow (suc fuel) x (a ∷ y) (c ∷ name) rest s f o l e =
      let (s', got, e') = read-one ok_r rel s c (name ++ rest) e in
      let room =
        lt→ltb (length x) (length (x ++ (a ∷ y))) (omega (arith, length-append x (a ∷ y))) in
      let at : length (x ++ (c ∷ [])) ≡ length x + 1 = omega (arith, length-append x (c ∷ [])) in
      rw (got, room, o.0, set-length x a c y)
        (ap₂ (λ j p. read_name r fuel j p s') (sym at) (sym (append_assoc x (c ∷ []) y))
          ∙ name-overflow fuel (x ++ (c ∷ [])) y name rest s' (omega arith) o.1 (omega arith) e')

  -- If no read fails, the bytes that are left begin with a name without newline, and a newline follows
  -- it, then the loop leaves the name as the string in `puffer`, which has room for it, and what
  -- stands behind the newline is left.
  pub read_name-line :
      (fuel : ℕ) (puffer name rest : List ℕ) (s : r.Source)
      → length name < fuel
      → OneLine name
      → NoNul name
      → length name < length puffer
      → left s ≡ name ++ (10 ∷ rest)
      → (p : List ℕ) × (s' : r.Source) × (read_name r fuel 0 puffer s ≡ ok (p, s'))
        × (c_string p ≡ name)
        × (left s' ≡ rest)
  read_name-line fuel puffer name rest s f o u l e =
      let (z, s', eq, e', n) = name-line fuel [] puffer name rest s f o l e in
      (name ++ (0 ∷ z), s', eq, c_string-terminated name z u, e')

  -- If no read fails and the bytes that are left begin with more bytes without newline than `puffer`
  -- has, then the loop writes past the end of `puffer`.
  pub read_name-overflow :
      (fuel : ℕ) (puffer name rest : List ℕ) (s : r.Source)
      → length name < fuel
      → OneLine name
      → length puffer < length name
      → left s ≡ name ++ rest
      → read_name r fuel 0 puffer s ≡ fault write_out_of_bounds
  read_name-overflow fuel puffer name rest s f o l e =
      name-overflow fuel [] puffer name rest s f o l e
