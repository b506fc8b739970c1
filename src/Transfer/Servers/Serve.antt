-- ===== src/Transfer/Servers/Serve.antt =====
-- The loops over the connections.
use linux_unix_development.Common.{
  ℕ, ◌<◌, ◌≡◌, refl, true, if◌then◌else◌, Option, none, some, List, [], ◌∷◌, ◌++◌, length, ok,
}
use linux_unix_development.Common.Bytes.{str_eq}
use linux_unix_development.System.Writer.{Writer, IsWriter}
use linux_unix_development.System.Reader.{Reader, IsReader, NeverFails}
use linux_unix_development.Transfer.{Served, not_opened, stored}
use linux_unix_development.Transfer.Content.{TakesAll}
use linux_unix_development.Transfer.Received.{path_of, HasName, copy_or_close-stored}
use linux_unix_development.Transfer.Servers.{
  Accepted, connection, Context, prepare, work, server2_loop, server2_main,
}

-- A file that a client sends: its name and its content.
abbrev pub File : Type 0
File = List ℕ × List ℕ

-- The connections bring these files one behind the other, each of which fits and opens on an empty
-- file.
pub data Brings {r : Reader} (left : r.Source → List ℕ) {w : Writer} (held : w.Conn → List ℕ)
    (c : Context w) : List (Accepted r) → List File → Type 0 where
  none_left : Brings left held c [] []
  next :
      {s : r.Source} {path_file puffer : List ℕ} {cs : List (Accepted r)} {name content : List ℕ}
      {fs : List File} (t : w.Conn)
      → HasName c.home path_file puffer name
      → length (left s) < c.fuel
      → left s ≡ name ++ (10 ∷ content)
      → c.opens (path_of c.home name) ≡ some t
      → held t ≡ []
      → Brings left held c cs fs
      → Brings left held c (connection s path_file puffer ∷ cs) ((name, content) ∷ fs)

-- What is served are these files, each under its path and with its content.
abbrev pub AllStored :
    (r : Reader) {w : Writer} (held : w.Conn → List ℕ) (home : List ℕ)
    → List (Served r w)
    → List File
    → Type 0
AllStored r held home [] [] = Unit
AllStored r held home (stored p n (some t) ∷ xs) ((name, content) ∷ fs) =
    (p ≡ path_of home name)
    × (n ≡ length content)
    × (held t ≡ content)
    × AllStored r held home xs fs
AllStored r held home _ _ = ⊥

abbrev or_else : Option (List ℕ) → Option (List ℕ) → Option (List ℕ)
or_else (some x) y = some x
or_else none y = y

abbrev if_same : List ℕ → List ℕ → List ℕ → Option (List ℕ)
if_same p q x = if str_eq p q then some x else none

-- The content of the file at a path behind these connections: open empties a file that is there, so
-- that the last connection under the path counts.
abbrev pub on_disk :
    (r : Reader) {w : Writer} (held : w.Conn → List ℕ)
    → List (Served r w)
    → List ℕ
    → Option (List ℕ)
on_disk r held [] p = none
on_disk r held (not_opened q ∷ xs) p = on_disk r held xs p
on_disk r held (stored q n none ∷ xs) p = on_disk r held xs p
on_disk r held (stored q n (some t) ∷ xs) p = or_else (on_disk r held xs p) (if_same q p (held t))

-- The content of the last of these files that goes to a path.
abbrev pub last_of : (home : List ℕ) → List File → List ℕ → Option (List ℕ)
last_of home [] p = none
last_of home ((name, content) ∷ fs) p =
    or_else (last_of home fs p) (if_same (path_of home name) p content)

AllStored-on_disk :
    (r : Reader) {w : Writer} (held : w.Conn → List ℕ) (home : List ℕ) (xs : List (Served r w))
    (fs : List File) (p : List ℕ)
    → AllStored r held home xs fs
    → on_disk r held xs p ≡ last_of home fs p
AllStored-on_disk r held home [] [] p h = refl
AllStored-on_disk r held home [] (f ∷ fs) p h = absurd h
AllStored-on_disk r held home (not_opened q ∷ xs) fs p h = absurd h
AllStored-on_disk r held home (stored q n none ∷ xs) fs p h = absurd h
AllStored-on_disk r held home (stored q n (some t) ∷ xs) [] p h = absurd h
AllStored-on_disk r held home (stored q n (some t) ∷ xs) ((name, content) ∷ fs) p (a, b, e, h) =
    rw (a, e, AllStored-on_disk r held home xs fs p h) refl

module _ {r : Reader} {left : r.Source → List ℕ} (ok_r : IsReader r left) (rel : NeverFails r)
    {w : Writer} {held : w.Conn → List ℕ} (ok_w : IsWriter w held) (full : TakesAll w)
    (c : Context w) where
  server2_loop-AllStored :
      (cs : List (Accepted r)) (fs : List File)
      → Brings left held c cs fs
      → (xs : List (Served r w)) × (server2_loop r w c cs ≡ ok xs) × AllStored r held c.home xs fs
  unfolding server2_loop work
  server2_loop-AllStored _ _ none_left = ([], refl, tt)
  server2_loop-AllStored _ _
        (next {s} {path_file} {puffer} {cs} {name} {content} {fs} t n f e o z b) =
      let (t', eq, h) =
        copy_or_close-stored ok_r rel c.home path_file puffer name content n ok_w full c.opens
          c.fuel s t f e o in
      let (xs, eq', rest) = server2_loop-AllStored cs fs b in
      (
        stored (path_of c.home name) (length content) (some t') ∷ xs,
        rw (eq, eq'),
        (refl, refl, rw z at h, rest),
      )

  -- If socket, bind and listen succeed, no read fails, every write takes all bytes, and the
  -- connections bring files that fit the arrays, whatever these hold from the connections before, and
  -- open, then when server2 waits for the next connection it has written every file whole, in the order
  -- of the connections, each to its path, and at every path stands the last file that came under it: a
  -- file of the same name is replaced. (Different paths are taken to be different files.)
  pub server2_main-AllStored :
      (cs : List (Accepted r)) (fs : List File)
      → Brings left held c cs fs
      → (xs : List (Served r w)) × (server2_main r w c
            (record { sockets = true; binds = true; listens = true })
            cs
          ≡ ok xs)
        × AllStored r held c.home xs fs
        × ((p : List ℕ) → on_disk r held xs p ≡ last_of c.home fs p)
  unfolding server2_main prepare
  server2_main-AllStored cs fs b =
      let (xs, e, h) = server2_loop-AllStored cs fs b in
      (xs, e, h, λ p. AllStored-on_disk r held c.home xs fs p h)
