-- ===== src/Select/Tests.antt =====
-- The select server with two clients, of which one says quit and the other is gone.
use linux_unix_development.Common.{
  ℕ, ◌≡◌, ◌≢◌, refl, true, false, none, some, [], ◌∷◌, ◌==◌, ◌||◌, if◌then◌else◌, Guarded, arith,
  ok, inl, inr, ◌>>=◌,
}
use linux_unix_development.Common.Bytes.{codes}
use linux_unix_development.Select.{State, Events, round, received, closed, fd_clr}
use linux_unix_development.Select.Talker.{Net, client3_main}
use linux_unix_development.Select.Talker.Sends.{Reaches, Spoken}
use linux_unix_development.Select.Talker.Heard.{hear, client3_main-heard}
use linux_unix_development.Select.Table.{member, Inv}
use linux_unix_development.Select.Round.{round-Inv}

abbrev two : State
two = record {
  client_sock = some 4 ∷ some 5 ∷ none ∷ none ∷ [];
  gesamt_sock = λ fd. fd == 3 || (fd == 4 || (fd == 5 || false));
  sock_max = 5;
  top = 2;
  log = [];
}

abbrev events : Events
events = record {
  lese_sock = λ fd. true;
  ready = 3;
  accepted = some 6;
  recv = λ fd. if fd == 4 then some (codes "quit\n") else some [];
}

two-Inv : Inv 3 two
two-Inv = record {
  agrees = λ fd. refl;
  distinct = (refl, (refl, tt));
  other = refl;
  bounded = λ fd h. ground (arith, h);
  above = tt;
}

six : (fd : ℕ) → events.accepted ≡ some fd → (member fd two.client_sock ≡ false) × (fd ≢ 3)
six fd e = let f : 6 ≡ fd = cc in (rw (← f), omega (arith, f))

round-Inv_example : Guarded (Inv 3) (round 3 events two)
round-Inv_example = round-Inv 3 events two two-Inv six

abbrev net : Net
net = record {
  socket = some 3;
  inet_addr = λ x. none;
  gethostbyname = λ x. some 2130706433;
  connect = λ addr port. true;
  send = λ x. true;
}

net-Reaches : Reaches net (codes "localhost")
net-Reaches = record {
  sock = 3;
  addr = 2130706433;
  opens = refl;
  known = inr (refl, refl);
  connects = refl;
  sends = λ x. refl;
}

hello-Spoken : Spoken (codes "hallo")
hello-Spoken = record {
  short = omega arith;
  one_line = (refl, (refl, (refl, (refl, (refl, tt)))));
  clean = omega arith;
  no_quit = refl;
}

client3_main-heard_example :
    (client3_main net 2 (codes "client3" ∷ codes "localhost" ∷ []) (codes "hallo\nquit\nmore")
      >>= λ sent. hear 3 5 sent two)
    ≡ ok (record two {
      client_sock = some 4 ∷ none ∷ none ∷ none ∷ [];
      gesamt_sock = fd_clr 5 two.gesamt_sock;
      log = closed 5 ∷ received 5 (codes "quit\n") ∷ received 5 (codes "hallo\n") ∷ [];
    })
client3_main-heard_example =
    client3_main-heard net (codes "client3") (codes "localhost") [] (codes "hallo" ∷ [])
      (codes "more") 3 5 two net-Reaches (hello-Spoken, tt) (omega arith) (inr (inl refl))
