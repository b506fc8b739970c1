-- ===== src/Terminal/Attributes.antt =====
-- struct termios, as far as keystroke.c, my_getch.c and my_getpass.c of 13_Terminal change it.
use linux_unix_development.Common.{ℕ, Bool}

-- The flags of c_lflag, c_iflag, c_oflag and c_cflag, the bits of a character, and c_cc.
pub record Attributes : Type 0 where
  pub echo : Bool
  pub icanon : Bool
  pub isig : Bool
  pub iexten : Bool
  pub echonl : Bool
  pub brkint : Bool
  pub icrnl : Bool
  pub inpck : Bool
  pub istrip : Bool
  pub ixon : Bool
  pub opost : Bool
  pub parenb : Bool
  pub csize : ℕ
  pub vmin : ℕ
  pub vtime : ℕ
