-- ===== src/Terminal/Speed.antt =====
-- 13_Terminal/baud.c and 13_Terminal/setbaud.c: showing and setting the speed of a terminal.
pub mod Lookup
pub mod Set
use linux_unix_development.Common.{
  ℕ, Bool, true, false, Option, none, some, List, [], ◌∷◌, ◌==◌, if◌then◌else◌, read_out_of_bounds,
  Outcome, ok, fault, exit, ◌>>=◌, ◌>>◌,
}

-- The rows of `speed_to_values_array`, by their values.
unfoldable pub values : List ℕ
values =
    0 ∷ 50 ∷ 75 ∷ 110 ∷ 134 ∷ 150 ∷ 200 ∷ 300 ∷ 600 ∷ 1200 ∷ 1800 ∷ 2400 ∷ 4800 ∷ 9600 ∷ 19200
    ∷ 38400 ∷ 57600 ∷ 115200 ∷ 230400 ∷ []

-- Calls that end the program where they fail.
abbrev pub require : {A : Type 0} → Option A → Outcome A
require none = exit 1
require (some a) = ok a

abbrev pub demand : Bool → Outcome (Unit {0})
demand true = ok tt
demand false = exit 1

-- The constants of termios: `speed i` is B##i.
module _ (speed : ℕ → ℕ) where
  -- The loop over the rest of the table. It runs while `i <= SIZE`, so that behind the last row one
  -- more is read.
  pub search : (baud : ℕ) → List ℕ → Outcome ℕ
  search baud [] = fault read_out_of_bounds
  search baud (i ∷ is) = let rest = search baud is in if baud == speed i then ok i else rest

  pub baudrate_wert : ℕ → Outcome ℕ
  baudrate_wert baud = search baud values

-- A terminal and the calls on it: `none` is -1, or a descriptor that cannot be opened.
pub record Tty : Type 1 where
  pub Dev : Type 0
  pub Attr : Type 0
  pub open_path : Option Dev
  pub isatty : Dev → Bool
  pub tcgetattr : Dev → Option Attr
  pub tcsetattr : Dev → Attr → Option Dev
  pub ispeed : Attr → ℕ
  pub ospeed : Attr → ℕ
  pub cfsetispeed : Attr → ℕ → Option Attr
  pub cfsetospeed : Attr → ℕ → Option Attr

module _ (t : Tty) (speed : ℕ → ℕ) where
  -- The two speeds of the attributes, as they are printed.
  pub speeds : t.Attr → Outcome (ℕ × ℕ)
  speeds a = do
    i ← baudrate_wert speed (t.ispeed a)
    o ← baudrate_wert speed (t.ospeed a)
    ok (i, o)

  -- From the start of either main to the attributes.
  pub attributes : (argc : ℕ) → Outcome (t.Dev × t.Attr)
  attributes argc = do
    _ ← demand (argc == 2)
    d ← require t.open_path
    _ ← demand (t.isatty d)
    a ← require (t.tcgetattr d)
    ok (d, a)

  -- main of baud.c: the speeds of input and output.
  pub baud_main : (argc : ℕ) → Outcome (ℕ × ℕ)
  baud_main argc = attributes argc >>= λ (d, a). speeds a

  -- main of setbaud.c: the speeds before and behind the change, and the terminal.
  pub setbaud_main : (argc : ℕ) → Outcome ((ℕ × ℕ) × (ℕ × ℕ) × t.Dev)
  setbaud_main argc = attributes argc >>= λ (d, a). (do
    before ← speeds a
    a ← require (t.cfsetispeed a (speed 115200))
    a ← require (t.cfsetospeed a (speed 115200))
    d ← require (t.tcsetattr d a)
    a ← require (t.tcgetattr d)
    after ← speeds a
    ok (before, after, d))
