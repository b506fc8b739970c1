-- ===== src/Transfer/Received.antt =====
-- What the servers make of a connection: the name's line, and the content behind it.
use linux_unix_development.Common.{
  ℕ, zero, suc, ◌+◌, ◌<◌, ◌≡◌, ap, ◌∙◌, Option, none, some, List, ◌∷◌, ◌++◌, length, length-append,
  ok, exit, arith,
}
use linux_unix_development.Common.Bytes.{codes, c_string, NoNul, NoNul-append, NoNul-c_string}
use linux_unix_development.Common.Strings.{store-text}
use linux_unix_development.System.Writer.{Writer, IsWriter}
use linux_unix_development.System.Reader.{Reader, IsReader, NeverFails}
use linux_unix_development.Transfer.{
  target_path, stored, not_opened, read_path, copy_or_close, copy_on,
}
use linux_unix_development.Transfer.Name.{OneLine, read_name-line}
use linux_unix_development.Transfer.Content.{TakesAll, store_content-all, store_content-none}

-- The path of a name in the home directory.
abbrev pub path_of : List ℕ → List ℕ → List ℕ
path_of home name = (c_string home ++ codes "/tmp/") ++ name

target_path-path_of :
    (home path_file puffer : List ℕ)
    → length (c_string home) + 5 + length (c_string puffer) < length path_file
    → (p : List ℕ) × (target_path home path_file puffer ≡ ok p)
      × (c_string p ≡ path_of home (c_string puffer))
unfolding target_path
target_path-path_of home path_file puffer l =
    let h = NoNul-c_string home in
    let (a, ea, ta, la) = store-text path_file (c_string home) h (omega arith) in
    let dir : NoNul (c_string home ++ codes "/tmp/") =
      NoNul-append (c_string home) (codes "/tmp/") h (omega arith) in
    let (b, eb, tb, lb) =
      store-text a (c_string home ++ codes "/tmp/") dir
        (omega (arith, length-append (c_string home) (codes "/tmp/"))) in
    let (c, ec, tc, lc) =
      store-text b (path_of home (c_string puffer))
        (NoNul-append (c_string home ++ codes "/tmp/") (c_string puffer) dir
          (NoNul-c_string puffer))
        (omega (
          arith,
          length-append (c_string home) (codes "/tmp/"),
          length-append (c_string home ++ codes "/tmp/") (c_string puffer),
        )) in
    (c, rw (ea, ta, eb, tb, ec), tc)

-- A connection that starts with the line of a name, for which the arrays have room.
pub record HasName (home path_file puffer name : List ℕ) : Type 0 where
  pub one_line : OneLine name
  pub text : NoNul name
  pub room : length name < length puffer
  pub path : length (c_string home) + 5 + length name < length path_file

module _ {r : Reader} {left : r.Source → List ℕ} (ok_r : IsReader r left) (rel : NeverFails r)
    (home path_file puffer name content : List ℕ) (n : HasName home path_file puffer name) where
  read_path-name :
      (w : Writer) (fuel : ℕ) (s : r.Source)
      → length (left s) < fuel
      → left s ≡ name ++ (10 ∷ content)
      → (s' : r.Source) × (read_path r w fuel home path_file puffer s ≡ ok (path_of home name, s'))
        × (left s' ≡ content)
  unfolding read_path
  read_path-name w fuel s f e =
      let small : length name < fuel =
        omega (arith, ap length e, length-append name (10 ∷ content)) in
      let (p, s', eq, text, rest) =
        read_name-line ok_r rel fuel puffer name content s small n.one_line n.text n.room e in
      let (path, eq', text') =
        target_path-path_of home path_file p (omega (arith, ap length text, n.path)) in
      (s', rw (eq, eq', text', text), rest)

  -- If no read fails, every write takes all bytes, the connection begins with the line of a name that
  -- fits the arrays, and the file of that name under tmp in the home directory opens, then the server
  -- ends with exactly the bytes behind the line in the file, and reports their number.
  pub copy_or_close-stored :
      {w : Writer} {held : w.Conn → List ℕ} (ok_w : IsWriter w held)
      → TakesAll w
      → (opens : List ℕ → Option w.Conn) (fuel : ℕ) (s : r.Source) (t : w.Conn)
      → length (left s) < fuel
      → left s ≡ name ++ (10 ∷ content)
      → opens (path_of home name) ≡ some t
      → (t' : w.Conn) × (copy_or_close r w fuel home path_file puffer opens s
          ≡ ok (stored (path_of home name) (length content) (some t')))
        × (held t' ≡ held t ++ content)
  unfolding copy_or_close
  copy_or_close-stored {w} {held} ok_w full opens fuel s t f e o =
      let (s', eq, rest) = read_path-name w fuel s f e in
      let (s'', t', eq', text) =
        store_content-all ok_r ok_w full rel fuel (length puffer) 0 s' t
          (omega (arith, ap length e, ap length rest, length-append name (10 ∷ content)))
          (omega (arith, n.room)) in
      let len : 0 + length (left s') ≡ length content = omega (arith, ap length rest) in
      (
        t',
        rw (eq, o, eq') (ap (λ k. ok (stored (path_of home name) k (some t'))) len),
        text ∙ ap (λ y. held t ++ y) rest,
      )

  -- If the file of such a connection cannot be opened and there is content, the servers of
  -- parallel_server give up the connection, whereas the thread of thserver.c, which goes on behind the
  -- message, ends the whole process.
  pub copy_on-exit :
      (w : Writer) (opens : List ℕ → Option w.Conn) (fuel : ℕ) (s : r.Source)
      → length (left s) < fuel
      → left s ≡ name ++ (10 ∷ content)
      → 0 < length content
      → opens (path_of home name) ≡ none
      → (copy_or_close r w fuel home path_file puffer opens s ≡ ok (not_opened (path_of home name)))
        × (copy_on r w fuel home path_file puffer opens s ≡ exit 1)
  unfolding copy_or_close copy_on
  copy_on-exit w opens zero s f e c o = absurd (omega arith)
  copy_on-exit w opens (suc fuel) s f e c o =
      let (s', eq, rest) = read_path-name w (suc fuel) s f e in
      let out =
        store_content-none ok_r w fuel (length puffer) 0 s' (omega (arith, n.room))
          (omega (arith, ap length rest)) in
      (rw (eq, o), rw (eq, o, out))
