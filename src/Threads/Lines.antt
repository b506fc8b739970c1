-- ===== src/Threads/Lines.antt =====
-- 10_Threads/thread5.c, thread6.c and thread8.c: one thread writes a line that is typed to a file and
-- another reads it back, without a mutex, under a mutex, and under a mutex that main locks before it
-- creates the threads and that the writer unlocks.
pub mod Handed
pub mod Locked
pub mod Early
use linux_unix_development.Common.{
  ℕ, ◌+◌, ◌≡◌, Bool, true, false, Option, none, some, List, [], ◌∷◌, ◌++◌, if◌then◌else◌, length,
  take, drop,
}
use linux_unix_development.Common.Bytes.{c_string}
use linux_unix_development.Common.Strings.{line}

-- The three programs. In thread8.c a thread unlocks a mutex that another has locked, which POSIX leaves
-- undefined for a default mutex: `any_thread` says that the mutex lets any thread unlock it, as a normal
-- mutex of Linux does; otherwise it is one that refuses and stays locked.
pub data Program : Type 0 where
  unlocked locked : Program
  handed : (any_thread : Bool) → Program

-- thread_schreiben: at pthread_mutex_lock, at fgets, at fputs with the string, at the unlock.
pub data Writer : Type 0 where
  enter get leave done : Writer
  put : (string : List ℕ) → Writer

-- thread_lesen: at its lock, at rewind, at fgets, at fputs to stdout, at the unlock, at its end with
-- what it printed.
pub data Reader : Type 0 where
  enter rewind get : Reader
  show leave done : (string : List ℕ) → Reader

-- The file and the position in it, and whether the mutex is locked.
pub record State : Type 0 where
  pub file : List ℕ
  pub pos : ℕ
  pub held : Bool
  pub writer : Writer
  pub reader : Reader

abbrev pub state : List ℕ → ℕ → Bool → Writer → Reader → State
state f n b p q = record { file = f; pos = n; held = b; writer = p; reader = q }

-- When the threads are created.
unfoldable pub start : Program → State
start unlocked = state [] 0 false Writer.get Reader.rewind
start locked = state [] 0 false Writer.enter Reader.enter
start (handed any_thread) = state [] 0 true Writer.get Reader.enter

-- fgets(string, BUF, f): the string in the array, and how many bytes were read. At the end of the file
-- the array keeps its old string.
abbrev pub fgets : (old : List ℕ) → List ℕ → List ℕ × ℕ
fgets old [] = (old, 0)
fgets old (c ∷ cs) = let (x, rest) = line 254 (c ∷ cs) in (c_string x, length x)

-- fputs at the position of the file.
abbrev pub write_at : ℕ → List ℕ → List ℕ → List ℕ
write_at n x f = take n f ++ (x ++ drop (n + length x) f)

-- pthread_mutex_lock, or pthread_mutex_trylock until it succeeds.
abbrev pub lock : State → State → Option State
lock s t = if s.held then none else some t

-- pthread_mutex_unlock by the writer: whether the mutex is locked then. thread5.c has no mutex.
abbrev pub release : Program → Bool → Bool
release unlocked b = b
release locked b = false
release (handed any_thread) b = if any_thread then false else b

-- The same by the reader, which always holds the mutex itself.
abbrev pub drops : Program → Bool → Bool
drops unlocked b = b
drops locked b = false
drops (handed any_thread) b = false

-- `input` is what is typed, `old` and `old'` are the strings in the arrays of the two threads.
module _ (p : Program) (input old old' : List ℕ) where
  unfoldable pub write_step : Writer → State → Option State
  write_step Writer.enter s = lock s (record s { held = true; writer = Writer.get })
  write_step Writer.get s = some (record s { writer = put (fgets old input).0 })
  write_step (put string) s = some (record s {
    file = write_at s.pos string s.file;
    pos = s.pos + length string;
    writer = Writer.leave;
  })
  write_step Writer.leave s = some (record s { held = release p s.held; writer = Writer.done })
  write_step Writer.done s = none

  unfoldable pub read_step : Reader → State → Option State
  read_step Reader.enter s = lock s (record s { held = true; reader = rewind })
  read_step rewind s = some (record s { pos = 0; reader = Reader.get })
  read_step Reader.get s =
      let (string, n) = fgets old' (drop s.pos s.file) in
      some (record s { pos = s.pos + n; reader = show string })
  read_step (show string) s = some (record s { reader = Reader.leave string })
  read_step (Reader.leave string) s =
      some (record s { held = drops p s.held; reader = Reader.done string })
  read_step (Reader.done string) s = none

  -- The states that the threads reach in any interleaving.
  pub data Reach : State → Type 0 where
    begin : Reach (start p)
    write : {s t : State} → Reach s → write_step s.writer s ≡ some t → Reach t
    read : {s t : State} → Reach s → read_step s.reader s ≡ some t → Reach t
