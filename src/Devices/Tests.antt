-- ===== src/Devices/Tests.antt =====
-- A drive with a disc of two tracks.
use linux_unix_development.Common.{
  ℕ, false, ◌≡◌, refl, true, none, some, List, [], ◌∷◌, ◌==◌, leb, ◌&&◌, ◌||◌, if◌then◌else◌, exit,
  arith,
}
use linux_unix_development.Devices.{Msf, Entry, leadout, full, Drive, State, play_cdrom}
use linux_unix_development.Devices.Play.{IsDisc, Played, play_cdrom-IsDisc}

abbrev toc : ℕ → Entry
toc t = record { addr = record { minute = t; second = 2; frame = 0 }; is_data = false }

abbrev drive : Drive
drive = record {
  Dev = List (Msf × Msf);
  Status = ℕ;
  open_dev = some [];
  command = λ c s. (true, s);
  capability = λ s. some 8;
  subchannel = λ s. none;
  header = λ s. some (1, 2);
  entry = λ s t. if (leb 1 t && leb t 2) || (t == 170) then some (toc t) else none;
  play = λ s from to. (true, (from, to) ∷ s);
}

abbrev state : State drive
state = record { dev = []; out = [] }

disc : IsDisc drive [] 2 toc
disc = record {
  tracks = λ t a b. ground (arith, a, b);
  lead = refl;
  others = λ t a b. ground (arith, a, b);
}

play_cdrom-IsDisc_example :
    Played drive state (toc 1).addr (toc leadout).addr (play_cdrom drive full state)
    × Played drive state (toc 1).addr (toc 2).addr (play_cdrom drive 1 state)
    × (play_cdrom drive 2 state ≡ exit 1)
play_cdrom-IsDisc_example =
    play_cdrom-IsDisc drive state 2 1 toc disc (omega arith) (omega arith) (omega arith)
      (λ from to. refl)
