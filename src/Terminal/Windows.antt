-- ===== src/Terminal/Windows.antt =====
-- 13_Terminal/cur15.c: a window with buttons that close, enlarge and move it. The colours and the order
-- in which curses redraws are left out.
pub mod Buttons
use linux_unix_development.Common.{
  ℕ, zero, suc, ◌+◌, Bool, ◌&&◌, ◌||◌, List, [], ◌∷◌, ◌++◌, ◌==◌, if◌then◌else◌,
}
use linux_unix_development.Common.Bytes.{codes}

-- MINSIZE and MAXSIZE.
pub data Size : Type 0 where
  minsize maxsize : Size

-- A window: its size, its upper left corner, and what is printed in it, with line and column.
pub record Window : Type 0 where
  pub zeilen : ℕ
  pub spalten : ℕ
  pub begin_y : ℕ
  pub begin_x : ℕ
  pub texts : List (ℕ × ℕ × List ℕ)

-- mvwaddch and mvwprintw.
abbrev pub print_at : ℕ → ℕ → List ℕ → Window → Window
print_at y x text w = record w { texts = w.texts ++ ((y, x, text) ∷ []) }

-- The variables of the program, and how many windows were made and deleted.
pub record State : Type 0 where
  pub y_click : ℕ
  pub x_click : ℕ
  pub size : Size
  pub fenster : Window
  pub made : ℕ
  pub deleted : ℕ

pub create_new_window : (zeilen spalten begin_y begin_x : ℕ) → State → State
create_new_window zeilen spalten begin_y begin_x s = record s {
  fenster = record {
    zeilen = zeilen;
    spalten = spalten;
    begin_y = begin_y;
    begin_x = begin_x;
    texts = [];
  };
  made = suc s.made;
}

-- What main prints in a small and in a large window.
abbrev pub label_small : Window → Window
label_small w = print_at 6 10 (codes "M=Fenster maximieren") (
    print_at 2 10 (codes "S=Fenster schliessen")
      (print_at 0 39 (codes "M") (print_at 0 0 (codes "S") w)))

abbrev pub label_large : Window → Window
label_large w = print_at 14 30 (codes "M=Fenster maximieren") (
    print_at 10 30 (codes "S=Fenster schliessen")
      (print_at 0 78 (codes "M") (print_at 0 0 (codes "S") w)))

pub open_small : State → State
unfolding create_new_window
open_small s =
    let t = create_new_window 10 40 5 15 s in record t { fenster = label_small t.fenster }

pub open_large : State → State
unfolding create_new_window
open_large s = let t = create_new_window 24 79 0 0 s in record t { fenster = label_large t.fenster }

-- Where a click changes the size.
abbrev pub on_m : (y x : ℕ) → Window → Bool
on_m y x w = y == w.begin_y && (x == w.begin_x + 39 || x == w.begin_x + 78)

abbrev pub on_s : (y x : ℕ) → Window → Bool
on_s y x w = y == w.begin_y && x == w.begin_x

abbrev pub toggle : Size → Size
toggle minsize = maxsize
toggle maxsize = minsize

-- How the program stands after some keys: it ended with an exit code, or it waits in the loop.
pub data End : Type 0 where
  over : (code : ℕ) → End
  waits : State → End

-- A key: a click of the mouse, or anything else, also a click that getmouse cannot read.
pub data Key : Type 0 where
  click : (y x : ℕ) → Key
  another : Key

-- The next round of the loop, if there is one.
abbrev pub goes_on : (State → End) → End → End
goes_on next (over code) = over code
goes_on next (waits s) = next s

-- where_clicked: `over` is the exit.
pub where_clicked : (y x : ℕ) → State → End
where_clicked y x s =
    let t : State = record s { y_click = y; x_click = x } in
    let switched : State = record t { size = toggle s.size; deleted = suc s.deleted } in
    if on_s y x s.fenster then over 1 else if on_m y x s.fenster then waits switched else waits t

-- `moves` says whether mvwin can put the window there.
module _ (moves : Window → (y x : ℕ) → Bool) where
  pub move_win_to : State → State
  move_win_to s =
      if moves s.fenster (s.y_click + 1) (s.x_click + 1)
      then record s {
        fenster = record s.fenster { begin_y = s.y_click + 1; begin_x = s.x_click + 1 };
      }
      else s

  -- The new window for the size.
  pub redraw : Size → State → State
  redraw maxsize s = open_large s
  redraw minsize s = move_win_to (open_small s)

  pub behind_click : End → End
  behind_click (over code) = over code
  behind_click (waits s) = waits (redraw s.size s)

  pub on_key : Key → State → End
  on_key (click y x) s = behind_click (where_clicked y x s)
  on_key another s = waits s

  pub windows_loop : List Key → State → End
  windows_loop [] s = waits s
  windows_loop (k ∷ ks) s = goes_on (windows_loop ks) (on_key k s)

-- The static variables.
abbrev pub static : State
static = record {
  y_click = 0;
  x_click = 0;
  size = minsize;
  fenster = record { zeilen = 0; spalten = 0; begin_y = 0; begin_x = 0; texts = [] };
  made = 0;
  deleted = 0;
}

-- main on the keys.
pub windows_main : (moves : Window → (y x : ℕ) → Bool) → List Key → End
windows_main moves ks = windows_loop moves ks (open_small static)
