-- ===== src/Transfer/Tests.antt =====
-- A small file on its way from the client to a server.
use linux_unix_development.Common.{
  true, ℕ, ◌≡◌, refl, some, List, [], ◌∷◌, ◌++◌, replicate, ok, arith,
}
use linux_unix_development.Common.Bytes.{codes}
use linux_unix_development.System.Plain.{
  unread, written, plain, plain-IsWriter, threes, threes-IsReader, threes-NeverFails,
}
use linux_unix_development.Transfer.{
  Served, send_file, sent, base_name, has_slash, stored, copy_or_close,
}
use linux_unix_development.Transfer.Content.{TakesAll}
use linux_unix_development.Transfer.Received.{path_of, HasName}
use linux_unix_development.Transfer.Servers.{Accepted, Context, connection, server2_main}
use linux_unix_development.Transfer.Servers.Serve.{
  Brings, none_left, next, AllStored, on_disk, last_of, server2_main-AllStored,
}
use linux_unix_development.Transfer.Sent.{send_file-sent, send-receive}

plain-TakesAll : TakesAll plain
plain-TakesAll t x = refl

abbrev home : List ℕ
home = codes "/h" ++ (0 ∷ [])

abbrev room : List ℕ
room = replicate 32 0

abbrev content : List ℕ
content = codes "hello"

abbrev line : List ℕ
line = codes "a\n" ++ content

a-HasName : HasName home room room (codes "a")
a-HasName = record {
  one_line = (refl, tt);
  text = omega arith;
  room = omega arith;
  path = omega arith;
}

abbrev file : List ℕ
file = codes "d/a" ++ (0 ∷ [])

sent_line :
    (t : List ℕ) × (send_file threes plain 20 room file (some content) [] ≡ ok (sent (some t)))
    × (t ≡ line)
unfolding base_name has_slash
sent_line =
    send_file-sent threes-IsReader plain-IsWriter plain-TakesAll threes-NeverFails 20 room file
      content [] (omega arith) (omega arith) (omega arith)

send-receive_example :
    (f : List ℕ) × (copy_or_close threes plain 20 home room room (λ p. some []) line
      ≡ ok (stored (path_of home (base_name (codes "d/a"))) 5 (some f)))
    × (f ≡ content)
unfolding base_name has_slash
send-receive_example =
    send-receive threes-IsReader plain-IsWriter plain-TakesAll threes-NeverFails 20 20 room file
      home room room (λ p. some []) content line [] sent_line.0 [] (omega arith) (omega arith)
      (omega arith) refl sent_line.1 a-HasName refl refl (rw sent_line.2) (omega arith)

-- Two connections to the sequential server.
abbrev context : Context plain
context = record { fuel = 20; home = home; opens = λ p. some [] }

-- The second connection finds what the first one left, and brings another file of the same name.
abbrev again : List ℕ
again = codes "a\nbye"

abbrev two : List (Accepted threes)
two =
    connection line room room
    ∷ connection again (codes "/h/tmp/a" ++ room) (codes "hel" ++ room)
    ∷ []

a_left-HasName : HasName home (codes "/h/tmp/a" ++ room) (codes "hel" ++ room) (codes "a")
a_left-HasName = record {
  one_line = (refl, tt);
  text = omega arith;
  room = omega arith;
  path = omega arith;
}

two-Brings :
    Brings {r = threes} unread written context two
      ((codes "a", content) ∷ (codes "a", codes "bye") ∷ [])
two-Brings =
    next [] a-HasName (omega arith) refl refl refl
      (next [] a_left-HasName (omega arith) refl refl refl none_left)

server2_main-AllStored_example :
    (xs : List (Served threes plain)) × (server2_main threes plain context
        (record { sockets = true; binds = true; listens = true })
        two
      ≡ ok xs)
    × AllStored threes written home xs ((codes "a", content) ∷ (codes "a", codes "bye") ∷ [])
    × ((p : List ℕ)
        → on_disk threes written xs p
          ≡ last_of home ((codes "a", content) ∷ (codes "a", codes "bye") ∷ []) p)
server2_main-AllStored_example =
    server2_main-AllStored threes-IsReader threes-NeverFails plain-IsWriter plain-TakesAll context
      two ((codes "a", content) ∷ (codes "a", codes "bye") ∷ []) two-Brings
