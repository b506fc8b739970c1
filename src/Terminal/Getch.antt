-- ===== src/Terminal/Getch.antt =====
-- 13_Terminal/my_getch.c: characters without waiting for a line, up to a 'q'.
pub mod Quits
use linux_unix_development.Common.{
  ℕ, zero, suc, Bool, true, false, Option, none, some, List, [], ◌∷◌, ◌++◌, ◌==◌, if◌then◌else◌,
  Outcome, ok, exit, take, drop, ◌>>=◌,
}
use linux_unix_development.Terminal.Attributes.{Attributes}

-- What raw sets: the flags of cfmakeraw that the program names, and eight bits a character.
abbrev pub raw_mode : Attributes → Attributes
raw_mode a = record a {
  brkint = false;
  icrnl = false;
  inpck = false;
  istrip = false;
  ixon = false;
  opost = false;
  parenb = false;
  csize = 8;
  echo = false;
  icanon = false;
  iexten = false;
  isig = false;
  vmin = 1;
  vtime = 0;
}

-- The terminal, the characters that it has and nobody has read, the buffer of stdin and whether stdin has
-- seen the end, and the lines: a character, or EOF, and whether it was the last.
pub record State : Type 0 where
  pub tty : Attributes
  pub queue : List ℕ
  pub stdio : List ℕ
  pub at_end : Bool
  pub out : List (Option ℕ × Bool)

-- What is typed: before raw sets the attributes, and behind it up to the return of the read.
abbrev pub Typed : Type 0
Typed = List ℕ × List ℕ

abbrev pub type_in : List ℕ → State → State
type_in x s = record s { queue = s.queue ++ x }

-- What read gives to an empty buffer of `size` bytes; nothing is the end of the input.
abbrev pub filled : ℕ → State → State
filled size s = record s { stdio = take size s.queue; queue = drop size s.queue }

-- getchar behind the read, if it needed one.
pub from_buffer : List ℕ → State → Option ℕ × State
from_buffer [] s = (none, record s { at_end = true })
from_buffer (c ∷ cs) s = (some c, record s { stdio = cs })

-- getchar: `none` is EOF, which stays. Only an empty buffer is filled from the terminal.
pub getchar : ℕ → State → Option ℕ × State
unfolding from_buffer
getchar size s = if s.at_end then (none, s) else look s.stdio
  where
    look : List ℕ → Option ℕ × State
    look [] = from_buffer (filled size s).stdio (filled size s)
    look (c ∷ cs) = from_buffer (c ∷ cs) s

-- The program after some calls of getch.
pub data Main : Type 0 where
  ended waiting : State → Main

-- `gets`, `sets` and `resets` say whether the calls work that read the attributes, set the raw ones and
-- set the old ones; `size` is that of the buffer of stdin.
module _ (gets sets resets : Bool) (size : ℕ) where
  -- raw: old_io, or -1. TCSAFLUSH throws away what nobody has read.
  pub raw : State → Option Attributes × State
  raw s =
      if gets
      then (if sets then (some s.tty, record s { tty = raw_mode s.tty; queue = [] }) else (none, s))
      else (none, s)

  pub behind_raw : List ℕ → Option Attributes × State → Outcome (Option ℕ × State)
  behind_raw arriving (none, s) = exit 1
  behind_raw arriving (some old_io, s) =
      let (c, t) = getchar size (type_in arriving s) in
      ok (c, if resets then record t { tty = old_io } else t)

  pub getch : Typed → State → Outcome (Option ℕ × State)
  unfolding raw behind_raw getchar
  getch (before, arriving) s = behind_raw arriving (raw (type_in before s))

  -- The test of the loop in main: EOF is not 'q'. `next` is the rest of the loop.
  pub behind_getch : (next : State → Outcome Main) → Option ℕ × State → Outcome Main
  behind_getch next (none, s) = next (record s { out = s.out ++ ((none, false) ∷ []) })
  behind_getch next (some c, s) =
      let more = next (record s { out = s.out ++ ((some c, false) ∷ []) }) in
      if c == b'q' then ok (ended (record s { out = s.out ++ ((some c, true) ∷ []) })) else more

  -- main, on what is typed around each call of getch; behind the last of it, main waits.
  pub getch_main : List Typed → State → Outcome Main
  getch_main [] s = ok (waiting s)
  getch_main (e ∷ es) s = getch e s >>= behind_getch (getch_main es)
