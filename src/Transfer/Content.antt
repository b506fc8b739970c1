-- ===== src/Transfer/Content.antt =====
-- The content of a file, from the connection into the file.
use linux_unix_development.Common.{
  ℕ, zero, suc, ◌+◌, ◌<◌, ◌≡◌, refl, ap, ◌∙◌, sym, inl, inr, true, none, some, List, [], ◌∷◌, ◌++◌,
  append_assoc, append-nil, ◌==◌, Option-cases, length, length-append, take-length, ok, exit, arith,
}
use linux_unix_development.System.Writer.{Writer, IsWriter}
use linux_unix_development.System.Reader.{Reader, IsReader, NeverFails}
use linux_unix_development.Transfer.{put, took_all, content_round, store_content}

-- Every call of write takes all bytes, as on a regular file with room.
abbrev pub TakesAll : Writer → Type 0
TakesAll w = (t : w.Conn) (x : List ℕ) → (w.send t x).0 ≡ some (length x)

module _ {r : Reader} {left : r.Source → List ℕ} (ok_r : IsReader r left) where
  -- An empty read means that nothing is left.
  pub left-nil : (s : r.Source) (n : ℕ) → 0 < n → (r.read s n).0 ≡ some [] → left s ≡ []
  left-nil s n p e = nil (left s) λ q. omega (arith, ok_r.progress s n [] e p q)
    where
      nil : (l : List ℕ) → ((0 < length l) → 0 < 0) → l ≡ []
      nil [] h = refl
      nil (c ∷ cs) h = absurd (omega (arith, h (omega arith)))

  pub left-append :
      (s : r.Source) (n c : ℕ) (cs : List ℕ)
      → (r.read s n).0 ≡ some (c ∷ cs)
      → length (left (r.read s n).1) < length (left s)
  left-append s n c cs e =
      omega
        (arith, ap length (ok_r.split s n (c ∷ cs) e), length-append (c ∷ cs) (left (r.read s n).1))

  module _ {w : Writer} {held : w.Conn → List ℕ} (ok_w : IsWriter w held) (full : TakesAll w)
      (rel : NeverFails r) where
    pub put-all :
        (t : w.Conn) (x : List ℕ)
        → (t' : w.Conn) × (put w (some t) x ≡ (some (length x), some t')) × (held t' ≡ held t ++ x)
    unfolding put
    put-all t x = (
      (w.send t x).1,
      rw (full t x),
      ok_w.stored t x (length x) (full t x)
          ∙ ap (λ y. held t ++ y) (take-length (length x) x (omega arith)),
    )

    -- If no read fails and every write takes all bytes, the loop ends with all bytes that were left in
    -- the file, behind what it held, and `ngesammt` has grown by their number.
    pub store_content-all :
        (fuel size total : ℕ) (s : r.Source) (t : w.Conn)
        → length (left s) < fuel
        → 0 < size
        → (s' : r.Source) × (t' : w.Conn) × (store_content r w fuel size total s (some t)
            ≡ ok (total + length (left s), s', some t'))
          × (held t' ≡ held t ++ left s)
    unfolding store_content content_round took_all
    store_content-all zero size total s t f p = absurd (omega arith)
    store_content-all (suc fuel) size total s t f p = elim (Option-cases (r.read s size).0) [
      | inl e ↦ absurd (rel s size e)
      | inr ([], e) ↦
          let n = left-nil s size p e in
          (
            (r.read s size).1,
            t,
            rw e (ap (λ k. ok (k, (r.read s size).1, some t)) (omega (arith, ap length n))),
            sym (append-nil (held t)) ∙ ap (λ y. held t ++ y) (sym n),
          )
      | inr (c ∷ cs, e) ↦
          let less = left-append s size c cs e in
          let (t₁, q, h) = put-all t (c ∷ cs) in
          let same : (length (c ∷ cs) == length (c ∷ cs)) ≡ true = ground arith in
          let (s', t', eq, h') =
            store_content-all fuel size (total + length (c ∷ cs)) (r.read s size).1 t₁ (omega arith)
              p in
          (
            s',
            t',
            rw (e, q, same)
                (eq
                  ∙ ap (λ k. ok (k, s', some t'))
                      (omega (
                        arith,
                        ap length (ok_r.split s size (c ∷ cs) e),
                        length-append (c ∷ cs) (left (r.read s size).1),
                      ))),
            h'
                ∙ ap (λ y. y ++ left (r.read s size).1) h
                ∙ append_assoc (held t) (c ∷ cs) (left (r.read s size).1)
                ∙ ap (λ y. held t ++ y) (sym (ok_r.split s size (c ∷ cs) e)),
          )
    ]

  -- Without a file, the loop ends the process as soon as a byte comes.
  pub store_content-none :
      (w : Writer) (fuel size total : ℕ) (s : r.Source)
      → 0 < size
      → 0 < length (left s)
      → store_content r w (suc fuel) size total s none ≡ exit 1
  unfolding store_content content_round put took_all
  store_content-none w fuel size total s p q = elim (Option-cases (r.read s size).0) [
    | inl e ↦ rw e
    | inr ([], e) ↦ absurd (omega (arith, ap length (left-nil s size p e)))
    | inr (c ∷ cs, e) ↦ rw e
  ]
