-- ===== src/Devices.antt =====
-- 05_Devices/cdrom.c: the control of an audio CD from a menu.
pub mod Play
pub mod Toc
pub mod Menu
mod Tests
use linux_unix_development.Common.{
  ℕ, zero, suc, ◌+◌, ◌-◌, ◌*◌, Bool, true, false, ◌||◌, Option, none, some, List, [], ◌∷◌, ◌++◌,
  leb, ◌==◌, if◌then◌else◌, Outcome, ok, exit, out_of_fuel, ◌>>=◌,
}

-- An address on the disc.
pub record Msf : Type 0 where
  pub minute : ℕ
  pub second : ℕ
  pub frame : ℕ

-- A row of the table of contents: its address, and whether it is a data track.
pub record Entry : Type 0 where
  pub addr : Msf
  pub is_data : Bool

-- CDROM_LEADOUT
abbrev pub leadout : ℕ
leadout = 170

-- FULL
abbrev pub full : ℕ
full = 0

-- The commands without data: whether ioctl succeeds is the answer.
pub data Command : Type 0 where
  eject close_tray stop pause resume : Command

-- The drive: its answers to the calls of ioctl, `none` for -1. A status is what CDROMSUBCHNL gives.
pub record Drive : Type 1 where
  pub Dev : Type 0
  pub Status : Type 0
  pub open_dev : Option Dev
  pub command : Command → Dev → Bool × Dev
  pub capability : Dev → Option ℕ
  pub subchannel : Dev → Option Status
  pub header : Dev → Option (ℕ × ℕ)
  pub entry : Dev → ℕ → Option Entry
  pub play : Dev → Msf → Msf → Bool × Dev

-- A row of the list of contents as it is printed: the address, and the two numbers behind it, the
-- second of which is printed less 150.
pub record Row : Type 0 where
  pub track : ℕ
  pub addr : Msf
  pub first_number : ℕ
  pub second_number : ℕ
  pub is_data : Bool
  pub is_leadout : Bool

-- What the program prints.
pub data Line (d : Drive) : Type 0 where
  failed : Command → Line d
  no_capability no_status : Line d
  capabilities : ℕ → Line d
  status : d.Status → Line d
  tracks : ℕ → Line d
  row : Row → Line d
  bye what : Line d

module _ (d : Drive) where
  -- The drive and what has been printed.
  pub record State : Type 0 where
    pub dev : d.Dev
    pub out : List (Line d)

  pub say : Line d → State → State
  say l s = record s { out = s.out ++ (l ∷ []) }

  -- open_tray ends the program where ioctl fails; close_tray, stop_cdrom, pause_cdrom and
  -- resume_cdrom print a message.
  pub open_tray : State → Outcome State
  open_tray s =
      let (works, dev) = d.command eject s.dev in
      if works then ok (record s { dev = dev }) else exit 1

  pub command_cdrom : Command → State → State
  command_cdrom c s =
      let (works, dev) = d.command c s.dev in
      let t = record s { dev = dev } in if works then t else say (failed c) t

  pub capability_cdrom : State → State
  capability_cdrom s = shown (d.capability s.dev)
    where
      shown : Option ℕ → State
      shown none = say no_capability s
      shown (some caps) = say (capabilities caps) s

  pub get_audio_status : State → State
  get_audio_status s = shown (d.subchannel s.dev)
    where
      shown : Option d.Status → State
      shown none = say no_status s
      shown (some x) = say (status x) s

  -- CDROMREADTOCENTRY, which ends the program where it fails.
  pub read_entry : d.Dev → ℕ → Outcome Entry
  read_entry dev track = got (d.entry dev track)
    where
      got : Option Entry → Outcome Entry
      got none = exit 1
      got (some e) = ok e

  -- A row of content_cdrom.
  pub row_of : ℕ → Entry → Row
  row_of track e = record {
    track = track;
    addr = e.addr;
    first_number = e.addr.frame + e.addr.second * 75;
    second_number = e.addr.minute * 75 * 60;
    is_data = e.is_data;
    is_leadout = track == leadout;
  }

  -- `while (track <= tochdr.cdth_trk1)`: `n` tracks are left.
  pub content_loop : (n track : ℕ) → State → Outcome State
  content_loop zero track s = ok s
  content_loop (suc n) track s =
      read_entry s.dev track >>= λ e. content_loop n (track + 1) (say (row (row_of track e)) s)

  pub content_cdrom : State → Outcome State
  content_cdrom s = shown (d.header s.dev)
    where
      shown : Option (ℕ × ℕ) → Outcome State
      shown none = exit 1
      shown (some (trk0, trk1)) = content_loop (trk1 + 1 - trk0) trk0 (say (tracks trk1) s)

  -- play_cdrom(cdrom, flag)
  pub play_cdrom : (flag : ℕ) → State → Outcome State
  play_cdrom flag s =
      let track = if flag == full then 1 else flag in
      let lead = if flag == full then leadout else flag + 1 in
      read_entry s.dev track >>= λ first. read_entry s.dev lead >>= λ last.
      let (works, dev) = d.play s.dev first.addr last.addr in
      if works then ok (record s { dev = dev }) else exit 1

  -- The menu: the number that is read, and for 5 the track.
  pub choose : (select track : ℕ) → State → Outcome State
  choose select track s =
      if select == 1
      then open_tray s
      else if select == 2
      then ok (command_cdrom close_tray s)
      else if select == 3
      then ok (capability_cdrom s)
      else if select == 4
      then play_cdrom full s
      else if select == 5
      then play_cdrom track s
      else if select == 6
      then ok (command_cdrom pause s)
      else if select == 7
      then ok (command_cdrom resume s)
      else if select == 8
      then ok (command_cdrom stop s)
      else if select == 9
      then ok (get_audio_status s)
      else if select == 10
      then content_cdrom s
      else if select == 11
      then ok (say bye s)
      else ok (say what s)

  -- `do ... while (select != 11)` on the numbers that are typed: whether the program has left the
  -- loop, or waits for input.
  pub menu_loop : List (ℕ × ℕ) → State → Outcome (Bool × State)
  menu_loop [] s = ok (false, s)
  menu_loop ((select, track) ∷ is) s = choose select track s >>= λ t.
      let rest = menu_loop is t in if select == 11 then ok (true, command_cdrom stop t) else rest

  pub cdrom_main : List (ℕ × ℕ) → Outcome (Bool × State)
  cdrom_main is = opened d.open_dev
    where
      opened : Option d.Dev → Outcome (Bool × State)
      opened none = exit 1
      opened (some dev) = menu_loop is (record { dev = dev; out = [] })
