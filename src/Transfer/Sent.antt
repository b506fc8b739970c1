-- ===== src/Transfer/Sent.antt =====
-- What the client puts on a connection, and the way from the client to a server.
use linux_unix_development.Common.{
  ℕ, zero, suc, ◌+◌, ◌<◌, ◌≡◌, refl, ap, ◌∙◌, sym, inl, inr, true, Bool-cases, Option, some, List,
  [], ◌∷◌, ◌++◌, append_assoc, append-nil, length, length-append, lt→ltb, not-lt→ltb, ◌==◌,
  Option-cases, write_out_of_bounds, ok, fault, arith,
}
use linux_unix_development.Common.Bytes.{c_string, NoNul-append, NoNul-c_string}
use linux_unix_development.Common.Strings.{store-text}
use linux_unix_development.System.Writer.{Writer, IsWriter}
use linux_unix_development.System.Reader.{Reader, IsReader, NeverFails}
use linux_unix_development.Transfer.{
  took_all, has_slash, base_name, Offered, sent, send_round, send_content, name_line, send_file,
  stored, copy_or_close,
}
use linux_unix_development.Transfer.Content.{TakesAll, left-nil, left-append, put-all}
use linux_unix_development.Transfer.Received.{path_of, HasName, copy_or_close-stored}

has_slash-newline : (x : List ℕ) → has_slash (x ++ (10 ∷ [])) ≡ has_slash x
unfolding has_slash
has_slash-newline [] = refl
has_slash-newline (c ∷ x) = rw (has_slash-newline x)

base_name-newline : (x : List ℕ) → base_name (x ++ (10 ∷ [])) ≡ base_name x ++ (10 ∷ [])
unfolding base_name
base_name-newline [] = refl
base_name-newline (c ∷ x) = rw (has_slash-newline x) (elim (Bool-cases (has_slash x)) [
  | inl e ↦ rw e (base_name-newline x)
  | inr e ↦ elim (Bool-cases (c == 47)) [ inl f ↦ rw (e, f) | inr f ↦ rw (e, f) ]
])

name_line-base_name :
    (puffer file : List ℕ)
    → length (c_string file) + 1 < length puffer
    → name_line puffer file ≡ ok (base_name (c_string file) ++ (10 ∷ []))
unfolding name_line
name_line-base_name puffer file l =
    let h = NoNul-c_string file in
    let (a, ea, ta, la) = store-text puffer (c_string file) h (omega arith) in
    let (b, eb, tb, lb) =
      store-text a (c_string file ++ (10 ∷ []))
        (NoNul-append (c_string file) (10 ∷ []) h (omega arith))
        (omega (arith, length-append (c_string file) (10 ∷ []))) in
    rw (ea, ta, eb, tb) (ap ok (base_name-newline (c_string file)))

module _ {r : Reader} {left : r.Source → List ℕ} (ok_r : IsReader r left) {w : Writer}
    {got : w.Conn → List ℕ} (ok_w : IsWriter w got) (full : TakesAll w) (rel : NeverFails r) where
  send_content-all :
      (fuel size : ℕ) (s : r.Source) (t : w.Conn)
      → length (left s) < fuel
      → length (left s) < size
      → (t' : w.Conn) × (send_content r w fuel size s (some t) ≡ ok (some t'))
        × (got t' ≡ got t ++ left s)
  unfolding send_content send_round took_all
  send_content-all zero size s t f p = absurd (omega arith)
  send_content-all (suc fuel) size s t f p = elim (Option-cases (r.read s size).0) [
    | inl e ↦ absurd (rel s size e)
    | inr ([], e) ↦ (
      t,
      rw e,
      sym (append-nil (got t)) ∙ ap (λ y. got t ++ y) (sym (left-nil ok_r s size (omega arith) e)),
    )
    | inr (c ∷ cs, e) ↦
        let less = left-append ok_r s size c cs e in
        let (t₁, q, h) = put-all ok_r ok_w full rel t (c ∷ cs) in
        let same : (length (c ∷ cs) == length (c ∷ cs)) ≡ true = ground arith in
        let fits = lt→ltb (length (c ∷ cs)) size (
          omega (
            arith,
            ap length (ok_r.split s size (c ∷ cs) e),
            length-append (c ∷ cs) (left (r.read s size).1),
          )) in
        let (t', eq, h') =
          send_content-all fuel size (r.read s size).1 t₁ (omega arith) (omega arith) in
        (
          t',
          rw (e, q, fits, same) eq,
          h'
              ∙ ap (λ y. y ++ left (r.read s size).1) h
              ∙ append_assoc (got t) (c ∷ cs) (left (r.read s size).1)
              ∙ ap (λ y. got t ++ y) (sym (ok_r.split s size (c ∷ cs) e)),
        )
  ]

  -- If no read fails, every write takes all bytes, and both the name with its newline and the content
  -- are shorter than `puffer`, then the client sends the last component of the name, a newline, and
  -- the content of the file.
  pub send_file-sent :
      (fuel : ℕ) (puffer file : List ℕ) (s : r.Source) (t : w.Conn)
      → length (left s) < fuel
      → length (left s) < length puffer
      → length (c_string file) + 1 < length puffer
      → (t' : w.Conn) × (send_file r w fuel puffer file (some s) t ≡ ok (sent (some t')))
        × (got t' ≡ got t ++ (base_name (c_string file) ++ (10 ∷ left s)))
  unfolding send_file took_all
  send_file-sent fuel puffer file s t f p l =
      let name = base_name (c_string file) ++ (10 ∷ []) in
      let (t₁, q, h) = put-all ok_r ok_w full rel t name in
      let (t', eq, h') = send_content-all fuel (length puffer) s t₁ f p in
      let same : (length name == length name) ≡ true = ground arith in
      (
        t',
        rw (name_line-base_name puffer file l, q, same, eq),
        h'
            ∙ ap (λ y. y ++ left s) h
            ∙ append_assoc (got t) name (left s)
            ∙ ap (λ y. got t ++ y) (append_assoc (base_name (c_string file)) (10 ∷ []) (left s)),
      )

  -- If a read of the file gives as many bytes as `puffer` has, the client writes the NUL behind them
  -- past the end of `puffer`.
  pub send_content-overflow :
      (fuel size : ℕ) (s : r.Source) (t : Option w.Conn) (x : List ℕ)
      → (r.read s size).0 ≡ some x
      → length x ≡ size
      → 0 < size
      → send_content r w (suc fuel) size s t ≡ fault write_out_of_bounds
  unfolding send_content send_round
  send_content-overflow fuel size s t [] e l p = absurd (omega arith)
  send_content-overflow fuel size s t (c ∷ cs) e l p =
      rw (e, not-lt→ltb (length (c ∷ cs)) size (omega arith))

ok-inj : {A : Type 0} {a b : A} → ok a ≡ ok b → a ≡ b
ok-inj e = cc

sent-inj : {w : Writer} {a b : w.Conn} → ◌≡◌ {A = Offered w} (sent (some a)) (sent (some b)) → a ≡ b
sent-inj e = cc

-- A file goes through the client and a server: if no read fails, every write takes all bytes, the
-- arrays have room on both sides, the client ends with the file sent, and the server gets on its
-- connection what the client put on its own, then the server's file of the name's last component ends
-- with the content of the client's.
pub send-receive :
    {r : Reader} {left : r.Source → List ℕ} (ok_r : IsReader r left) {w : Writer}
    {got : w.Conn → List ℕ} (ok_w : IsWriter w got) (full : TakesAll w) (rel : NeverFails r)
    (fuel fuel' : ℕ) (puffer file home path_file puffer' : List ℕ) (opens : List ℕ → Option w.Conn)
    (s s' : r.Source) (t t' f : w.Conn)
    → length (left s) < fuel
    → length (left s) < length puffer
    → length (c_string file) + 1 < length puffer
    → got t ≡ []
    → send_file r w fuel puffer file (some s) t ≡ ok (sent (some t'))
    → HasName home path_file puffer' (base_name (c_string file))
    → opens (path_of home (base_name (c_string file))) ≡ some f
    → got f ≡ []
    → left s' ≡ got t'
    → length (left s') < fuel'
    → (f' : w.Conn) × (copy_or_close r w fuel' home path_file puffer' opens s'
        ≡ ok (stored (path_of home (base_name (c_string file))) (length (left s)) (some f')))
      × (got f' ≡ left s)
send-receive {left = left} ok_r {got = got} ok_w full rel fuel fuel' puffer file home path_file
      puffer' opens s s' t t' f a b c e q n o z k l =
    let (t₁, eq, h) = send_file-sent ok_r ok_w full rel fuel puffer file s t a b c in
    let same : t₁ ≡ t' = sent-inj (ok-inj (sym eq ∙ q)) in
    let name = base_name (c_string file) in
    let (f', eq', h') =
      copy_or_close-stored ok_r rel home path_file puffer' name (left s) n ok_w full opens fuel' s'
        f l (k ∙ ap got (sym same) ∙ h ∙ ap (λ y. y ++ (name ++ (10 ∷ left s))) e) o in
    (f', eq', h' ∙ ap (λ y. y ++ left s) z)
