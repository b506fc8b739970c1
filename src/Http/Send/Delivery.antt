-- ===== src/Http/Send/Delivery.antt =====
-- The send loops of http_server.c end, and deliver the whole buffer or fail.
use linux_unix_development.Common.{
  ℕ, zero, suc, ◌-◌, ◌≤◌, ◌<◌, ◌≡◌, refl, ap, ◌∙◌, sym, inl, inr, List, [], ◌∷◌, ◌++◌, append-nil,
  length, take, drop, length-drop, length-take, arith, Option-cases, lt→ltb,
}
use linux_unix_development.Common.Bytes.{c_string}
use linux_unix_development.System.Writer.{Writer, IsWriter, Delivered, all, part, Delivered-step}
use linux_unix_development.Http.Send.{send_block_loop, send_block, send_buf_loop, send_buf}

-- Taking fewer bytes of a longer prefix, and what is left of it.
take-take : (n m : ℕ) (r : List ℕ) → n ≤ m → take n (take m r) ≡ take n r
take-take zero m r h = refl
take-take (suc n) zero r h = absurd (omega arith)
take-take (suc n) (suc m) [] h = refl
take-take (suc n) (suc m) (x ∷ r) h = ap (λ y. x ∷ y) (take-take n m r (omega arith))

take-nil : (n : ℕ) → take {A = ℕ} n [] ≡ []
take-nil zero = refl
take-nil (suc n) = refl

drop-take : (n m : ℕ) (r : List ℕ) → drop n (take m r) ≡ take (m - n) (drop n r)
drop-take zero m r = ap (λ k. take k r) (omega arith)
drop-take (suc n) zero r = ap (λ k. take k (drop (suc n) r)) {x = 0} {y = 0 - suc n} (omega arith)
drop-take (suc n) (suc m) [] = sym (take-nil (suc m - suc n))
drop-take (suc n) (suc m) (x ∷ r) = drop-take n m r ∙ ap (λ k. take k (drop n r)) (omega arith)

drop-c_string :
    (n : ℕ) (r : List ℕ) → n ≤ length (c_string r) → drop n (c_string r) ≡ c_string (drop n r)
drop-c_string zero r h = refl
drop-c_string (suc n) [] h = refl
drop-c_string (suc n) (x ∷ r) h = ground (arith, drop-c_string n r)

nil_of_length : (x : List ℕ) → length x ≡ 0 → [] ≡ x
nil_of_length [] e = refl
nil_of_length (a ∷ x) e = absurd (omega arith)

module _ {w : Writer} {sent : w.Conn → List ℕ} (ok_w : IsWriter w sent) where
  open ok_w use {taken, progress, stored, failed}

  block-Delivered :
      (fuel : ℕ) (s : w.Conn) (r : List ℕ) (size : ℕ)
      → size < fuel
      → size ≤ length r
      → Delivered w sent s (take size r) (send_block_loop w fuel s r size)
  unfolding send_block_loop
  block-Delivered zero s r size f h = absurd (omega arith)
  block-Delivered (suc fuel) s r zero f h = all (sym (append-nil (sent s)))
  block-Delivered (suc fuel) s r (suc m) f h = elim (Option-cases (w.send s (take (suc m) r)).0) [
    | inl e ↦
        rw (lt→ltb 0 (suc m) (omega arith), e, send_block_loop)
          (part [] (take (suc m) r) refl (failed s (take (suc m) r) e ∙ sym (append-nil (sent s)))
            (s, take (suc m) r, e))
    | inr (n, e) ↦
        let x = take (suc m) r in
        let le = taken s x n e in
        let pos = progress s x n e (omega (arith, length-take (suc m) r)) in
        let le' : n ≤ suc m = omega (arith, length-take (suc m) r) in
        rw (lt→ltb 0 (suc m) (omega arith), e, send_block_loop)
          (Delivered-step w sent x n (stored s x n e) (
            rw drop-take (
              block-Delivered fuel (w.send s x).1 (drop n r) (suc m - n) (omega arith)
                (omega (arith, length-drop n r)))))
  ]

  buf-Delivered :
      (fuel : ℕ) (s : w.Conn) (r : List ℕ) (rlen : ℕ)
      → rlen < fuel
      → rlen ≡ length (c_string r)
      → Delivered w sent s (c_string r) (send_buf_loop w fuel s r rlen)
  unfolding send_buf_loop
  buf-Delivered zero s r rlen f h = absurd (omega arith)
  buf-Delivered (suc fuel) s r zero f h =
      all (sym (append-nil (sent s)) ∙ ap (λ y. sent s ++ y) (nil_of_length (c_string r) (sym h)))
  buf-Delivered (suc fuel) s r (suc m) f h = elim (Option-cases (w.send s (c_string r)).0) [
    | inl e ↦
        rw (lt→ltb 0 (suc m) (omega arith), e, send_buf_loop)
          (part [] (c_string r) refl (failed s (c_string r) e ∙ sym (append-nil (sent s)))
            (s, c_string r, e))
    | inr (n, e) ↦
        let x = c_string r in
        let le = taken s x n e in
        let pos = progress s x n e (omega arith) in
        let eq = drop-c_string n r le in
        rw (lt→ltb 0 (suc m) (omega arith), e, send_buf_loop)
          (Delivered-step w sent x n (stored s x n e) (
            rw eq (
              buf-Delivered fuel (w.send s x).1 (drop n r) (suc m - n) (omega arith)
                (omega (arith, length-drop n x, ap length eq)))))
  ]

  -- `SendBlock(soc, buf, size)` with `size` bytes in `buf` ends: it returns 0 and the other side has
  -- got exactly those bytes, or a call of send failed,
  -- it returns -1 and the other side has got a prefix of them.
  pub send_block-Delivered :
      (s : w.Conn) (buf : List ℕ) (size : ℕ)
      → size ≤ length buf
      → Delivered w sent s (take size buf) (send_block w s buf size)
  unfolding send_block
  send_block-Delivered s buf size h = block-Delivered (suc size) s buf size (omega arith) h

  -- `SendBuf(soc, buf)` ends: it returns 0 and the other side has got the string in `buf`, without
  -- its NUL, or a call of send failed,
  -- it returns -1 and the other side has got a prefix of the string.
  pub send_buf-Delivered :
      (s : w.Conn) (buf : List ℕ) → Delivered w sent s (c_string buf) (send_buf w s buf)
  unfolding send_buf
  send_buf-Delivered s buf =
      buf-Delivered (suc (length (c_string buf))) s buf (length (c_string buf)) (omega arith) refl
