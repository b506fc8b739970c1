-- ===== src/Terminal/KeyTests.antt =====
-- The programs that read keys, on an ordinary terminal.
use linux_unix_development.Common.{
  ℕ, ◌≡◌, refl, Bool, true, false, none, some, List, [], ◌∷◌, ◌++◌, ok, arith,
}
use linux_unix_development.Common.Bytes.{codes, NoNul}
use linux_unix_development.Terminal.Attributes.{Attributes}
use linux_unix_development.Terminal.Keys
use linux_unix_development.Terminal.Keys.Restored.{Fails, Leaves, keystroke_main-restores}
use linux_unix_development.Terminal.Getch
use linux_unix_development.Terminal.Getch.Quits.{key_events, others, NoQ, getch_main-quits}
use linux_unix_development.Terminal.Password
use linux_unix_development.Terminal.Windows
use linux_unix_development.Terminal.Windows.Buttons.{
  Inv, idle_clicks, clicks, Holds, windows_main-Inv,
}

abbrev usual : Attributes
usual = record {
  echo = true;
  icanon = true;
  isig = true;
  iexten = true;
  echonl = false;
  brkint = true;
  icrnl = true;
  inpck = false;
  istrip = false;
  ixon = true;
  opost = true;
  parenb = false;
  csize = 8;
  vmin = 1;
  vtime = 0;
}

abbrev start : Keys.State
start = record { tty = usual; out = [] }

abbrev keys : List Keys.Press
keys =
    (record { c = some 27; more = some (codes "[C") })
    ∷ (record { c = some 9; more = none })
    ∷ (record { c = some b'q'; more = none })
    ∷ []

keystroke_main-restores_example :
    Leaves (Fails keys) usual (Keys.keystroke_main true true true keys start)
keystroke_main-restores_example = keystroke_main-restores true true keys start

-- An 'x' was typed before main began.
abbrev typed : Getch.State
typed = record { tty = usual; queue = codes "x"; stdio = []; at_end = false; out = [] }

-- An 'a', then a 'q' before the second call, a 'b', and the 'q' that ends main.
abbrev getch_keys : List (List ℕ × ℕ)
getch_keys = ([], b'a') ∷ (codes "q", b'b') ∷ []

no_q : NoQ getch_keys
no_q = (omega arith, (omega arith, tt))

getch_main-quits_example :
    Getch.getch_main true true true 1024 (key_events getch_keys ++ (([], b'q' ∷ []) ∷ [])) typed
    ≡ ok (
        Getch.ended (record {
          tty = usual;
          queue = [];
          stdio = [];
          at_end = false;
          out = [] ++ (others getch_keys ++ ((some b'q', true) ∷ []));
        }))
getch_main-quits_example = getch_main-quits 1024 typed getch_keys [] [] (omega arith) refl refl no_q

abbrev asked : Password.State
asked = record { tty = usual; input = codes "geheimnis"; passwort = []; out = [] }

typed-NoNul : NoNul (codes "geheimnis")
typed-NoNul = omega arith

abbrev moves : Windows.Window → (y x : ℕ) → Bool
moves w y x = true

-- A click beside the buttons, and one on the M of the window, which that moved to (3, 8).
abbrev mouse : List Windows.Key
mouse = Windows.click 2 7 ∷ Windows.another ∷ Windows.click 3 47 ∷ []

windows_main-Inv_example :
    Holds
      (Inv (clicks mouse) (idle_clicks moves mouse (Windows.open_small Windows.static)))
      (Windows.windows_main moves mouse)
windows_main-Inv_example = windows_main-Inv moves mouse

abbrev large : Windows.State
large = record {
  y_click = 3;
  x_click = 47;
  size = Windows.maxsize;
  fenster =
      Windows.label_large
        (record { zeilen = 24; spalten = 79; begin_y = 0; begin_x = 0; texts = [] });
  made = 3;
  deleted = 1;
}
