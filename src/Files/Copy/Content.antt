-- ===== src/Files/Copy/Content.antt =====
-- What a copy leaves, whatever the sizes of the reads and writes.
use linux_unix_development.Common.{
  ℕ, zero, suc, ◌+◌, ◌-◌, ◌≤◌, ◌<◌, ◌≡◌, refl, sym, ap, ◌∙◌, inl, inr, some, List, [], ◌∷◌, ◌++◌,
  Bool-cases, Option-cases, if◌then◌else◌, ltb, not-lt→ltb, append-nil, append_assoc, length,
  length-append, take, drop, take-length, Outcome, ok, arith,
}
use linux_unix_development.System.Writer.{
  Status, success, failure, Writer, IsWriter, IsReliable, Delivered, all, part, Delivered-reliable,
}
use linux_unix_development.System.Reader.{Reader, IsReader, NeverFails}
use linux_unix_development.Http.Send.{send_block_loop, send_block}
use linux_unix_development.Http.Send.Delivery.{send_block-Delivered}
use linux_unix_development.Files.Copy.{
  is_positive, write2_loop, write2, Copied, copy_loop, copied, copy_main,
}

-- write2 is the loop of SendBlock.
write2_loop-send_block :
    (w : Writer) (fuel : ℕ) (s : w.Conn) (x : List ℕ) (n : ℕ)
    → write2_loop w fuel s x n ≡ send_block_loop w fuel s x n
unfolding write2_loop send_block_loop
write2_loop-send_block w zero s x n = refl
write2_loop-send_block w (suc fuel) s x n = elim (Bool-cases (ltb 0 n)) [
  | inl e ↦ elim (Option-cases (w.send s (take n x)).0) [
    | inl f ↦ rw (e, write2_loop, send_block_loop, f)
    | inr (k, f) ↦
        rw (e, write2_loop, send_block_loop, f)
          (write2_loop-send_block w fuel (w.send s (take n x)).1 (drop k x) (n - k))
  ]
  | inr e ↦ rw (e, write2_loop, send_block_loop)
]

module _ {w : Writer} {sent : w.Conn → List ℕ} (ok_w : IsWriter w sent) where
  -- `write2(fd, buffer, count)` with `count` bytes in the buffer ends: it returns 0 and exactly those
  -- bytes are written, or a call of write failed, it returns -1 and a prefix of them is written.
  pub write2-Delivered :
      (s : w.Conn) (x : List ℕ) (n : ℕ)
      → n ≤ length x
      → Delivered w sent s (take n x) (write2 w s x n)
  unfolding write2
  write2-Delivered s x n h =
      rw (write2_loop-send_block w (suc n) s x n)
        (unfold send_block in send_block-Delivered ok_w s x n h)

Delivered-ends :
    {w : Writer} {sent : w.Conn → List ℕ} {s : w.Conn} {x : List ℕ} {o : Outcome (Status × w.Conn)}
    → Delivered w sent s x o
    → (v : Status) × (t : w.Conn) × (o ≡ ok (v, t))
Delivered-ends (all {t} h) = (success, t, refl)
Delivered-ends (part {t} p q d h f) = (failure, t, refl)

-- No result of write2 is reported.
never : (v : Status) (n : ℕ) → (if is_positive v then n + 1 else n) ≡ n
never success n = refl
never failure n = refl

module _ {r : Reader} {left : r.Source → List ℕ} (ok_r : IsReader r left) where
  -- Each block makes the rest of the source shorter.
  left-shrinks :
      (s : r.Source) (c : ℕ) (cs : List ℕ)
      → (r.read s 64).0 ≡ some (c ∷ cs)
      → length (left (r.read s 64).1) < length (left s)
  left-shrinks s c cs e =
      omega (
        arith,
        ap length (ok_r.split s 64 (c ∷ cs) e),
        length-append (c ∷ cs) (left (r.read s 64).1),
      )

  left-empty : (s : r.Source) → (r.read s 64).0 ≡ some [] → left s ≡ []
  left-empty s e = nil (left s) (λ p. omega (arith, ok_r.progress s 64 [] e (omega arith) p))
    where
      nil : (l : List ℕ) → ((0 < length l) → 0 < 0) → l ≡ []
      nil [] h = refl
      nil (c ∷ cs) h = absurd (omega (arith, h (omega arith)))

  module _ {w : Writer} {sent : w.Conn → List ℕ} (ok_w : IsWriter w sent) where
    -- The loop ends whatever the calls of read and write answer, and no result of write2 is reported.
    loop-silent :
        (fuel reports : ℕ) (s : r.Source) (t : w.Conn)
        → length (left s) < fuel
        → (v : Copied r w) × (copy_loop r w fuel reports s t ≡ ok v)
          × (v.code ≡ success)
          × (v.reports ≡ reports)
    unfolding copy_loop
    loop-silent zero reports s t f = absurd (omega arith)
    loop-silent (suc fuel) reports s t f = elim (Option-cases (r.read s 64).0) [
      | inl e ↦ (
        record { code = success; reports = reports; source = (r.read s 64).1; target = t },
        rw (e, copy_loop),
        refl,
        refl,
      )
      | inr ([], e) ↦ (
        record { code = success; reports = reports; source = (r.read s 64).1; target = t },
        rw (e, copy_loop),
        refl,
        refl,
      )
      | inr (c ∷ cs, e) ↦
          let shrinks = left-shrinks s c cs e in
          let (v, t', d) =
            Delivered-ends (write2-Delivered ok_w t (c ∷ cs) (length (c ∷ cs)) (omega arith)) in
          let (z, eq, code, count) = loop-silent fuel reports (r.read s 64).1 t' (omega arith) in
          (z, rw (e, copy_loop, d, never v reports) eq, code, count)
    ]

    -- With two file names that open, a descriptor that is read and one that is written, and more fuel
    -- than bytes in the source, main returns EXIT_SUCCESS and prints no message, whatever the calls of
    -- write answer: the test for a result of write2 greater than 0 never holds.
    pub copy_main-silent :
        (fuel argc : ℕ) (s : r.Source) (t : w.Conn)
        → length (left s) < fuel
        → 3 ≤ argc
        → (v : Copied r w) × (copy_main r w fuel argc (some s) (some t) ≡ ok (copied v))
          × (v.code ≡ success)
          × (v.reports ≡ 0)
    unfolding copy_main
    copy_main-silent fuel argc s t f a =
        let (v, e, code, count) = loop-silent fuel 0 s t f in
        (v, rw (not-lt→ltb argc 3 a, e), code, count)

    module _ (rel : IsReliable w) (never_fails : NeverFails r) where
      loop-content :
          (fuel reports : ℕ) (s : r.Source) (t : w.Conn)
          → length (left s) < fuel
          → (v : Copied r w) × (copy_loop r w fuel reports s t ≡ ok v)
            × (sent v.target ≡ sent t ++ left s)
      unfolding copy_loop
      loop-content zero reports s t f = absurd (omega arith)
      loop-content (suc fuel) reports s t f = elim (Option-cases (r.read s 64).0) [
        | inl e ↦ absurd (never_fails s 64 e)
        | inr ([], e) ↦ (
          record { code = success; reports = reports; source = (r.read s 64).1; target = t },
          rw (e, copy_loop),
          sym (append-nil (sent t)) ∙ ap (λ y. sent t ++ y) (sym (left-empty s e)),
        )
        | inr (c ∷ cs, e) ↦
            let shrinks = left-shrinks s c cs e in
            let (t', d, whole) =
              Delivered-reliable w sent rel
                (write2-Delivered ok_w t (c ∷ cs) (length (c ∷ cs)) (omega arith)) in
            let (z, eq, text) = loop-content fuel reports (r.read s 64).1 t' (omega arith) in
            (
              z,
              rw (e, copy_loop, d) eq,
              text
                  ∙ ap (λ y. y ++ left (r.read s 64).1)
                      (whole
                        ∙ ap (λ y. sent t ++ y)
                            (take-length (length (c ∷ cs)) (c ∷ cs) (omega arith)))
                  ∙ append_assoc (sent t) (c ∷ cs) (left (r.read s 64).1)
                  ∙ ap (λ y. sent t ++ y) (sym (ok_r.split s 64 (c ∷ cs) e)),
            )
      ]

      -- If no call of read or write fails and both files open, main ends, with more fuel than bytes in
      -- the source, and the target has got exactly the bytes of the source, whatever the sizes in
      -- which the calls take and give them.
      pub copy_main-content :
          (fuel argc : ℕ) (s : r.Source) (t : w.Conn)
          → length (left s) < fuel
          → 3 ≤ argc
          → (v : Copied r w) × (copy_main r w fuel argc (some s) (some t) ≡ ok (copied v))
            × (sent v.target ≡ sent t ++ left s)
      unfolding copy_main
      copy_main-content fuel argc s t f a =
          let (v, e, text) = loop-content fuel 0 s t f in (v, rw (not-lt→ltb argc 3 a, e), text)
