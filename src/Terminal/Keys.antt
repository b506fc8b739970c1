-- ===== src/Terminal/Keys.antt =====
-- 13_Terminal/keystroke.c: the names of the keys that are pressed.
pub mod Restored
use linux_unix_development.Common.{
  ℕ, ◌-◌, Bool, true, false, ◌||◌, Option, none, some, List, [], ◌∷◌, ◌++◌, ltb, ◌==◌,
  if◌then◌else◌, take,
}
use linux_unix_development.Common.Bytes.{codes, c_string, str_eq}
use linux_unix_development.Terminal.Attributes.{Attributes}

-- The lines on stdout: the name of a key, the number of a control character, a character, a number
-- below zero, which a byte above 127 is in a char, and the messages.
pub data Line : Type 0 where
  name : List ℕ → Line
  number : ℕ → Line
  character : ℕ → Line
  minus : ℕ → Line
  read_failed new_tty_failed : Line

pub record State : Type 0 where
  pub tty : Attributes
  pub out : List Line

-- What new_tty sets.
abbrev pub single_keys : Attributes → Attributes
single_keys a = record a { echo = false; icanon = false; isig = false; vmin = 1 }

-- new_tty: `gets` and `sets` say whether the two calls work. The result is BACKUP_TTY, or -1.
pub new_tty : (gets sets : Bool) → State → Option Attributes × State
new_tty gets sets s =
    if gets
    then (if sets then (some s.tty, record s { tty = single_keys s.tty }) else (none, s))
    else (none, s)

pub restore_tty : (works : Bool) → Attributes → State → State
restore_tty works backup s = if works then record s { tty = backup } else s

-- The sequences behind ESC, and what is printed for them.
abbrev pub sequences : List (List ℕ × List ℕ)
sequences =
    (codes "[[A", codes "F1")
    ∷ (codes "[[B", codes "F2")
    ∷ (codes "[C", codes "->")
    ∷ (codes "[D", codes "<-")
    ∷ (codes "[B", codes "V")
    ∷ (codes "[A", codes "^")
    ∷ (codes "[1~", codes "Pos 1")
    ∷ (codes "[6~", codes "Pg Dwn")
    ∷ (codes "[5~", codes "Pg Up")
    ∷ []

-- The chain of strcmp.
pub compare_all : List (List ℕ × List ℕ) → List ℕ → List Line
compare_all [] buffer = []
compare_all ((text, key) ∷ rest) buffer =
    let more = compare_all rest buffer in if str_eq buffer text then name key ∷ more else more

-- A round of the loop: what the first read gives, `none` for an error or the end of the input, and
-- what the read behind ESC gives, `none` for an error.
pub record Press : Type 0 where
  pub c : Option ℕ
  pub more : Option (List ℕ)

-- `c` is a char, which has a sign.
pub plain : ℕ → Line
plain c =
    if ltb 127 c then minus (256 - c) else if ltb c 32 || c == 127 then number c else character c

-- How main ends: with an exit code, still waiting for a key, or with a write to buffer[-1].
pub data End : Type 0 where
  over : (code : ℕ) → State → End
  waits : State → End
  before_buffer : End

-- The lines of a round; `none` is the write to buffer[-1].
pub shown : ℕ → Option (List ℕ) → Option (List Line)
shown c none = if c == 27 then none else some (plain c ∷ [])
shown c (some more) =
    if c == 27 then some (compare_all sequences (c_string (take 4 more))) else some (plain c ∷ [])

module _ (restores : Bool) (backup : Attributes) where
  -- The end of a round: `q` leaves the loop. `next` is the rest of the loop.
  pub finish : (next : State → End) → ℕ → Option (List Line) → State → End
  finish next c none s = before_buffer
  finish next c (some lines) s =
      let t : State = record s { out = s.out ++ lines } in
      if c == b'q' then over 0 (restore_tty restores backup t) else next t

  pub press : (next : State → End) → Option ℕ → Option (List ℕ) → State → End
  press next none more s =
      over 1 (restore_tty restores backup (record s { out = s.out ++ (read_failed ∷ []) }))
  press next (some c) more s = finish next c (shown c more) s

  pub keys_loop : List Press → State → End
  keys_loop [] s = waits s
  keys_loop (k ∷ ks) s = press (keys_loop ks) k.c k.more s

-- main behind new_tty.
pub after_new_tty : (restores : Bool) → List Press → Option Attributes × State → End
after_new_tty restores ks (none, s) = over 1 (record s { out = s.out ++ (new_tty_failed ∷ []) })
after_new_tty restores ks (some backup, s) = keys_loop restores backup ks s

pub keystroke_main : (gets sets restores : Bool) → List Press → State → End
keystroke_main gets sets restores ks s = after_new_tty restores ks (new_tty gets sets s)
