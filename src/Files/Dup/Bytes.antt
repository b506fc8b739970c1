-- ===== src/Files/Dup/Bytes.antt =====
-- What writes at an offset leave in a file.
use linux_unix_development.Common.{
  ℕ, zero, suc, ◌+◌, ◌≡◌, refl, ap, ◌∙◌, sym, List, [], ◌∷◌, ◌++◌, append_assoc, append-nil, length,
  length-append, drop, arith,
}
use linux_unix_development.Files.Dup.{put_bytes}

drop-nil : (n : ℕ) → drop {A = ℕ} n [] ≡ []
drop-nil zero = refl
drop-nil (suc n) = refl

drop-drop : (a b : ℕ) (x : List ℕ) → drop b (drop a x) ≡ drop (a + b) x
drop-drop zero b x = ap (λ n. drop n x) (omega arith)
drop-drop (suc a) b [] = drop-nil b ∙ sym (drop-nil (suc a + b))
drop-drop (suc a) b (c ∷ x) =
    let e : suc (a + b) ≡ suc a + b = omega arith in drop-drop a b x ∙ ap (λ n. drop n (c ∷ x)) e

put_bytes-behind :
    (a b r : List ℕ) → put_bytes (length a) b (a ++ r) ≡ a ++ (b ++ drop (length b) r)
unfolding put_bytes
put_bytes-behind [] b r = refl
put_bytes-behind (x ∷ a) b r = ap (λ l. x ∷ l) (put_bytes-behind a b r)

-- Two writes one behind the other are one write.
pub put_bytes-more :
    (a b c : List ℕ) → put_bytes (length a) b (put_bytes 0 a c) ≡ put_bytes 0 (a ++ b) c
unfolding put_bytes
put_bytes-more a b c =
    put_bytes-behind a b (drop (length a) c)
    ∙ ap (λ r. a ++ (b ++ r))
        (drop-drop (length a) (length b) c ∙ ap (λ n. drop n c) (sym (length-append a b)))
    ∙ sym (append_assoc a b (drop (length (a ++ b)) c))

-- The same at any offset.
pub put_bytes-further :
    (o : ℕ) (a b c : List ℕ) → put_bytes (o + length a) b (put_bytes o a c) ≡ put_bytes o (a ++ b) c
unfolding put_bytes
put_bytes-further zero a b c =
    let e : 0 + length a ≡ length a = omega arith in
    ap (λ k. put_bytes k b (put_bytes 0 a c)) e ∙ put_bytes-more a b c
put_bytes-further (suc o) a b [] =
    let e : suc o + length a ≡ suc (o + length a) = omega arith in
    ap (λ k. put_bytes k b (put_bytes (suc o) a [])) e
    ∙ ap (λ l. 0 ∷ l) (put_bytes-further o a b [])
put_bytes-further (suc o) a b (x ∷ c) =
    let e : suc o + length a ≡ suc (o + length a) = omega arith in
    ap (λ k. put_bytes k b (put_bytes (suc o) a (x ∷ c))) e
    ∙ ap (λ l. x ∷ l) (put_bytes-further o a b c)

-- A write at the end adds the text.
pub put_bytes-end :
    (text content : List ℕ) → put_bytes (length content) text content ≡ content ++ text
unfolding put_bytes
put_bytes-end text [] = ap (λ l. text ++ l) (drop-nil (length text)) ∙ append-nil text
put_bytes-end text (c ∷ content) = ap (λ l. c ∷ l) (put_bytes-end text content)
